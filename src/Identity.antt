-- ===== src/Identity.antt =====
-- pkg/csiplugin/identity/csi.go
use subprovisioner.Base.{String, Bool, true, List, [], ◌∷◌}
use subprovisioner.Common.Config.{domain, version}

pub record PluginInfo : Type 0 where
  pub name : String
  pub vendor_version : String

unfoldable pub get_plugin_info : PluginInfo
get_plugin_info = record { name = domain; vendor_version = version }

pub data PluginCapability : Type 0 where
  controller_service offline_volume_expansion : PluginCapability

unfoldable pub get_plugin_capabilities : List PluginCapability
get_plugin_capabilities = controller_service ∷ offline_volume_expansion ∷ []

unfoldable pub probe : Bool
probe = true
