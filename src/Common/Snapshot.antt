-- ===== src/Common/Snapshot.antt =====
-- pkg/csiplugin/common/volumesnapshot.go
use subprovisioner.Base.{String}
use subprovisioner.Kube.Objects.{VolumeSnapshot, MetaPatch}
use subprovisioner.Kube.Calls.{list_volume_snapshots, patch_volume_snapshot}
use subprovisioner.Kube.Prog.{Prog, call, lift, ◌>>=◌}
use subprovisioner.Common.Pvc.{only_item}

unfoldable pub find_volume_snapshot_by_label_selector : String → Prog VolumeSnapshot
find_volume_snapshot_by_label_selector label_selector =
    call (list_volume_snapshots label_selector) lift >>= only_item

-- The patch is a plain value, which `json.Marshal` always accepts.
unfoldable pub merge_patch_volume_snapshot : String → String → MetaPatch → Prog (Unit {0})
merge_patch_volume_snapshot volume_snapshot_name volume_snapshot_namespace patch =
    call (patch_volume_snapshot volume_snapshot_namespace volume_snapshot_name patch) lift
