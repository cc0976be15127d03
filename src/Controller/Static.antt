-- ===== src/Controller/Static.antt =====
-- pkg/csiplugin/controller/csi.go, the requests that call nothing.
use subprovisioner.Base.{String, ◌==◌, List, [], ◌∷◌, if◌then◌else◌}
use subprovisioner.Kube.Errors.{Result, ok, err, status, invalid_argument, unimplemented}

unfoldable pub delete_volume_request : String → Result (Unit {0})
delete_volume_request volume_id =
    if volume_id == "" then err (status invalid_argument "must specify volume id") else ok tt

unfoldable pub delete_snapshot_request : String → Result (Unit {0})
delete_snapshot_request snapshot_id =
    if snapshot_id == "" then err (status invalid_argument "must specify snapshot id") else ok tt

unfoldable pub validate_volume_capabilities : Result (Unit {0})
validate_volume_capabilities =
    err (status unimplemented "method ValidateVolumeCapabilities not required by Kubernetes")

pub data ControllerCapability : Type 0 where
  create_delete_volume create_delete_snapshot clone_volume expand_volume : ControllerCapability
  single_node_multi_writer : ControllerCapability

unfoldable pub controller_get_capabilities : List ControllerCapability
controller_get_capabilities =
    create_delete_volume ∷ create_delete_snapshot ∷ clone_volume ∷ expand_volume
    ∷ single_node_multi_writer ∷ []
