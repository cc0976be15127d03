-- ===== src/Tests/Plugins.antt =====
-- The set-up of the plugins, the interceptor and the monitor, on concrete arguments.
use subprovisioner.Base.{◌≡◌, refl, [], ◌∷◌}
use subprovisioner.Kube.Calls.{identity_server, controller_server, node_server}
use subprovisioner.Kube.Contract.{Meets, Success, Saw}
use subprovisioner.Kube.Run.{Environment, run}
use subprovisioner.Node.Publish.{node_unpublish_volume}
use subprovisioner.Plugin.{interceptor, run_controller_plugin, run_node_plugin}
use subprovisioner.Plugin.Order.{PluginOrder, Served, plugins_order}
use subprovisioner.Plugin.Interceptor.{IgnoresLogs, without_logs, interceptor_lem}
use subprovisioner.Tests.Fixtures.{quiet}

plugins_order_example :
    Meets
      (PluginOrder "/run/csi/socket" ("img" ∷ []) (identity_server ∷ controller_server "img" ∷ []))
      (Success λ h _.
        Saw
          (Served "/run/csi/socket" ("img" ∷ []) (identity_server ∷ controller_server "img" ∷ []))
          h)
      []
      (run_controller_plugin "/run/csi/socket" "img")
    × Meets
        (PluginOrder "/run/csi/socket" [] (identity_server ∷ node_server "n1" "img" ∷ []))
        (Success λ h _.
          Saw (Served "/run/csi/socket" [] (identity_server ∷ node_server "n1" "img" ∷ [])) h)
        []
        (run_node_plugin "/run/csi/socket" "n1" "img")
plugins_order_example = plugins_order "/run/csi/socket" "n1" "img"

abbrev always : Environment
always h c = quiet c

always-IgnoresLogs : IgnoresLogs always
always-IgnoresLogs h c = refl

interceptor_lem_example :
    ((run always []
        (interceptor "/csi.v1.Node/NodeUnpublishVolume" (node_unpublish_volume "/published"))).0
      ≡ (run always [] (node_unpublish_volume "/published")).0)
    × (without_logs
          (run always []
            (interceptor "/csi.v1.Node/NodeUnpublishVolume" (node_unpublish_volume "/published"))).1
        ≡ without_logs (run always [] (node_unpublish_volume "/published")).1)
interceptor_lem_example =
    interceptor_lem always always-IgnoresLogs "/csi.v1.Node/NodeUnpublishVolume" []
      (node_unpublish_volume "/published")
