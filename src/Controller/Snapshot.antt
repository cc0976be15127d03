-- ===== src/Controller/Snapshot.antt =====
-- pkg/csiplugin/controller/csi.go, `CreateSnapshot`.
pub mod Order
use subprovisioner.Base.{ℕ, String, ◌<>◌, true, [], ◌∷◌}
use subprovisioner.Base.Int.{ℤ}
use subprovisioner.Base.Dict
use subprovisioner.Strconv.{format_int, parse_int}
use subprovisioner.Kube.Objects.{Pvc, VolumeSnapshot, MetaPatch}
use subprovisioner.Kube.Errors.{status, unknown}
use subprovisioner.Kube.Calls.{get_volume_snapshot, now}
use subprovisioner.Kube.Prog.{Prog, ret, call, lift, or_fail, ◌>>=◌, ◌>>◌}
use subprovisioner.Kube.Libraries.{Libraries}
use subprovisioner.Common.Config.{key, generate_snapshotting_job_name}
use subprovisioner.Common.Pvc.{find_pvc_by_label_selector, set_pvc_state_to, set_pvc_state_to_idle}
use subprovisioner.Common.Job.{
  JobConfig, create_job, wait_for_job_to_succeed, delete_job_synchronously,
}
use subprovisioner.Common.Snapshot.{merge_patch_volume_snapshot}
use subprovisioner.Controller.Requests.{CreateSnapshotRequest, CreateSnapshotResponse}
use subprovisioner.Controller.Create.{get_parameter, Backing}

-- The script of a snapshot, after `dedent`.
abbrev pub snapshot_script : String
snapshot_script =
    "\nset -o errexit -o pipefail -o nounset -o xtrace\n\npvc=\"$1\"\nsnapshot=\"$2\"\n\nln -f \"/var/backing/${pvc}\" \"/var/backing/${snapshot}\"\n\nqemu-img create -f qcow2 -b \"${snapshot}\" -F qcow2 \"/var/backing/${pvc}.new\"\nmv -f \"/var/backing/${pvc}.new\" \"/var/backing/${pvc}\"\n\nchmod a-w \"/var/backing/${snapshot}\"  # should never modify this image\n"

-- Where the images of an existing volume lie, by its annotations.
unfoldable pub backing_of : Pvc → Backing
backing_of pvc = record {
  pvc_name = Dict.get pvc.annotations (key "/backing-pvc-name");
  pvc_namespace = Dict.get pvc.annotations (key "/backing-pvc-namespace");
  base_path = Dict.get pvc.annotations (key "/backing-pvc-base-path");
}

unfoldable pub snapshotting_job : String → Pvc → VolumeSnapshot → JobConfig
snapshotting_job image source_pvc volume_snapshot = record {
  name = generate_snapshotting_job_name volume_snapshot.uid;
  namespace = (backing_of source_pvc).pvc_namespace;
  labels = (key "/component", "volume-snapshotting") ∷ (key "/pvc-uid", source_pvc.uid) ∷ [];
  image = image;
  command =
      "bash"
      ∷ "-c"
      ∷ snapshot_script
      ∷ "bash"
      ∷ ("pvc-" <> (source_pvc.uid <> ".qcow2"))
      ∷ ("snapshot-" <> (volume_snapshot.uid <> ".qcow2"))
      ∷ [];
  args = [];
  backing_pvc_name = (backing_of source_pvc).pvc_name;
  backing_pvc_base_path = (backing_of source_pvc).base_path;
}

-- The label and annotations that a new snapshot is given.
abbrev pub snapshot_patch : VolumeSnapshot → Backing → ℤ → MetaPatch
snapshot_patch volume_snapshot backing size = record {
  labels = (key "/uid", volume_snapshot.uid) ∷ [];
  annotations =
      (key "/backing-pvc-name", backing.pvc_name)
      ∷ (key "/backing-pvc-namespace", backing.pvc_namespace)
      ∷ (key "/backing-pvc-base-path", backing.base_path)
      ∷ (key "/size", format_int size)
      ∷ [];
  finalizers = [];
}

unfoldable pub mark_snapshot : String → String → VolumeSnapshot → Backing → ℤ → Prog (Unit {0})
mark_snapshot volume_snapshot_name volume_snapshot_namespace volume_snapshot backing size =
    merge_patch_volume_snapshot volume_snapshot_name volume_snapshot_namespace
      (snapshot_patch volume_snapshot backing size)

module _ (lib : Libraries) (rounds : ℕ) (image : String) where
  -- From the state update on; the result is the size.
  unfoldable pub snapshot_pvc : String → String → VolumeSnapshot → Pvc → Prog ℤ
  snapshot_pvc volume_snapshot_name volume_snapshot_namespace volume_snapshot source_pvc = do
    set_pvc_state_to lib source_pvc.name source_pvc.namespace "snapshotting"
    size ←
        or_fail (parse_int (Dict.get source_pvc.annotations (key "/capacity")))
          (status unknown "failed to determine snapshot size")
    mark_snapshot volume_snapshot_name volume_snapshot_namespace volume_snapshot
        (backing_of source_pvc) size
    create_job (snapshotting_job image source_pvc volume_snapshot)
    wait_for_job_to_succeed rounds (generate_snapshotting_job_name volume_snapshot.uid)
        (backing_of source_pvc).pvc_namespace
    delete_job_synchronously rounds (generate_snapshotting_job_name volume_snapshot.uid)
        (backing_of source_pvc).pvc_namespace
    set_pvc_state_to_idle source_pvc.name source_pvc.namespace
    ret size

  unfoldable pub create_snapshot : CreateSnapshotRequest → Prog CreateSnapshotResponse
  create_snapshot req = do
    volume_snapshot_name ←
        lift (get_parameter req.parameters "csi.storage.k8s.io/volumesnapshot/name")
    volume_snapshot_namespace ←
        lift (get_parameter req.parameters "csi.storage.k8s.io/volumesnapshot/namespace")
    volume_snapshot ← call (get_volume_snapshot volume_snapshot_namespace volume_snapshot_name) lift
    source_pvc ← find_pvc_by_label_selector (key "/uid=" <> req.source_volume_id)
    size ← snapshot_pvc volume_snapshot_name volume_snapshot_namespace volume_snapshot source_pvc
    time ← call now ret
    ret (record {
      size_bytes = size;
      snapshot_id = volume_snapshot.uid;
      source_volume_id = req.source_volume_id;
      creation_time = time;
      ready_to_use = true;
    })
