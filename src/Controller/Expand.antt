-- ===== src/Controller/Expand.antt =====
-- pkg/csiplugin/controller/csi.go, `ControllerExpandVolume`.
pub mod Order
pub mod Whole
use subprovisioner.Base.{ℕ, String, ◌<>◌, ◌==◌, false, [], ◌∷◌, if◌then◌else◌}
use subprovisioner.Base.Int.{ℤ, ltb_ℤ}
use subprovisioner.Base.Dict
use subprovisioner.Strconv.{format_int, parse_int}
use subprovisioner.Kube.Objects.{Pvc, MetaPatch}
use subprovisioner.Kube.Errors.{status, invalid_argument, unknown}
use subprovisioner.Kube.Prog.{Prog, ret, fail, lift, or_fail, ◌>>=◌, ◌>>◌}
use subprovisioner.Kube.Libraries.{Libraries}
use subprovisioner.Common.Config.{key, generate_volume_image_path, generate_expansion_job_name}
use subprovisioner.Common.Pvc.{
  find_pvc_by_label_selector, strategic_merge_patch_pvc, set_pvc_state_to,
}
use subprovisioner.Common.Job.{
  JobConfig, create_job, wait_for_job_to_succeed, delete_job_synchronously,
}
use subprovisioner.Controller.Capacity.{validate_capacity}
use subprovisioner.Controller.Requests.{
  ControllerExpandVolumeRequest, ControllerExpandVolumeResponse,
}
use subprovisioner.Controller.Create.{check_source_size}
use subprovisioner.Controller.Snapshot.{backing_of}

-- The script of an expansion, after `dedent`.
abbrev pub expansion_script : String
expansion_script =
    "\nset -o errexit -o pipefail -o nounset -o xtrace\nsize=\"$( qemu-img info -f qcow2 --output=json \"$1\" | jq '.[\"virtual-size\"]' )\"\nif [ \"${size}\" -lt \"$2\" ]; then\n    qemu-img resize -f qcow2 \"$1\" \"$2\"\nfi\n"

unfoldable pub expansion_job : String → Pvc → ℤ → JobConfig
expansion_job image pvc capacity = record {
  name = generate_expansion_job_name pvc.uid;
  namespace = (backing_of pvc).pvc_namespace;
  labels = (key "/component", "volume-expansion") ∷ (key "/pvc-uid", pvc.uid) ∷ [];
  image = image;
  command =
      "bash"
      ∷ "-c"
      ∷ expansion_script
      ∷ "bash"
      ∷ generate_volume_image_path pvc.uid
      ∷ format_int capacity
      ∷ [];
  args = [];
  backing_pvc_name = (backing_of pvc).pvc_name;
  backing_pvc_base_path = (backing_of pvc).base_path;
}

abbrev pub expanded_to : ℤ → ControllerExpandVolumeResponse
expanded_to capacity = record { capacity_bytes = capacity; node_expansion_required = false }

-- The last patch of an expansion: the new capacity and the idle state together.
abbrev pub capacity_patch : ℤ → MetaPatch
capacity_patch capacity = record {
  labels = [];
  annotations = (key "/capacity", format_int capacity) ∷ (key "/state", "idle") ∷ [];
  finalizers = [];
}

unfoldable pub record_capacity : Pvc → ℤ → Prog (Unit {0})
record_capacity pvc capacity =
    strategic_merge_patch_pvc pvc.name pvc.namespace (capacity_patch capacity)

module _ (lib : Libraries) (rounds : ℕ) (image : String) where
  -- From the state update on.
  unfoldable pub expand_image : Pvc → ℤ → Prog ControllerExpandVolumeResponse
  expand_image pvc capacity = do
    set_pvc_state_to lib pvc.name pvc.namespace "expanding"
    create_job (expansion_job image pvc capacity)
    wait_for_job_to_succeed rounds (generate_expansion_job_name pvc.uid)
        (backing_of pvc).pvc_namespace
    delete_job_synchronously rounds (generate_expansion_job_name pvc.uid)
        (backing_of pvc).pvc_namespace
    record_capacity pvc capacity
    ret (expanded_to capacity)

  unfoldable pub controller_expand_volume :
      ControllerExpandVolumeRequest → Prog ControllerExpandVolumeResponse
  controller_expand_volume req =
      if req.volume_id == "" then fail (status invalid_argument "must specify volume id") else do
        capacities ← lift (validate_capacity req.capacity_range)
        pvc ← find_pvc_by_label_selector (key "/uid=" <> req.volume_id)
        current_capacity ←
            or_fail (parse_int (Dict.get pvc.annotations (key "/capacity")))
              (status unknown "failed to determine current volume capacity")
        check_source_size "current volume capacity" current_capacity capacities.max_capacity
        if ltb_ℤ current_capacity capacities.capacity
            then expand_image pvc capacities.capacity
            else ret (expanded_to current_capacity)
