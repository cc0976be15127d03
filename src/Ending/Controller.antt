-- ===== src/Ending/Controller.antt =====
-- The controller's requests come to an end.
use subprovisioner.Base.{ℕ, String, ◌<>◌, ◌==◌, not, ◌&&◌, Option, none, some, List}
use subprovisioner.Base.Int.{ℤ, pos, eq_ℤ, ltb_ℤ}
use subprovisioner.Base.Dict
use subprovisioner.Strconv.{parse_int}
use subprovisioner.Kube.Objects.{Pvc, VolumeSnapshot}
use subprovisioner.Kube.Errors.{ok, err}
use subprovisioner.Kube.Calls.{get_pvc, get_volume_snapshot}
use subprovisioner.Kube.Prog.{call, lift}
use subprovisioner.Kube.Run.{Environment}
use subprovisioner.Kube.Libraries.{Libraries, IsLawful}
use subprovisioner.Kube.Ends.{
  Ends, Ends-ret, Ends-fail, Ends-call, Ends-if, Ends-lift, Ends-or_fail, Ends-bind,
}
use subprovisioner.Common.Config.{key}
use subprovisioner.Common.Pvc.Ending.{
  Ends-only_item, Ends-find_pvc, Ends-patch_pvc, Ends-set_idle, Ends-set_pvc_state_to,
}
use subprovisioner.Common.Snapshot.{
  find_volume_snapshot_by_label_selector, merge_patch_volume_snapshot,
}
use subprovisioner.Common.Job.Ending.{
  PromptJobs, Ends-create-wait, Ends-create-wait_then, Ends-delete_job,
}
use subprovisioner.Controller.Capacity.{validate_capacity}
use subprovisioner.Controller.Requests.{
  VolumeContentSource, from_volume, from_snapshot, other_source, CreateVolumeRequest,
  CreateSnapshotRequest, ControllerExpandVolumeRequest, ControllerExpandVolumeResponse,
}
use subprovisioner.Controller.Create.{
  Backing, get_parameter, creation_job, check_capabilities, run_creation_job,
  create_volume_from_nothing, create_volume_from_volume, create_volume_from_snapshot, create_image,
  check_source_size, clone_pvc, mark_pvc, create_volume,
}
use subprovisioner.Controller.Snapshot.{
  snapshotting_job, mark_snapshot, snapshot_pvc, create_snapshot,
}
use subprovisioner.Controller.Expand.{
  expansion_job, record_capacity, expand_image, controller_expand_volume,
}

module _ (env : Environment) where
  Ends-find_snapshot :
      (selector : String) → Ends env (find_volume_snapshot_by_label_selector selector)
  unfolding find_volume_snapshot_by_label_selector
  Ends-find_snapshot selector =
      Ends-call env _ _
        (elim [ ok items ↦ Ends-only_item env items | err e ↦ Ends-fail env VolumeSnapshot e ])

  Ends-mark_snapshot :
      (name namespace : String) (snapshot : VolumeSnapshot) (backing : Backing) (size : ℤ)
      → Ends env (mark_snapshot name namespace snapshot backing size)
  unfolding mark_snapshot merge_patch_volume_snapshot
  Ends-mark_snapshot name namespace snapshot backing size = Ends-call env _ _ (Ends-lift env)

  Ends-check_size :
      (what : String) (size max_capacity : ℤ) → Ends env (check_source_size what size max_capacity)
  unfolding check_source_size
  Ends-check_size what size max_capacity =
      Ends-if env (not (eq_ℤ max_capacity (pos 0)) && ltb_ℤ max_capacity size) _ _
        (Ends-fail env (Unit {0}) _) (Ends-ret env tt)

  module _ (lib : Libraries) (law : IsLawful lib) (rounds : ℕ) (prompt : PromptJobs env rounds)
      (image : String) where
    Ends-run_creation_job :
        (backing : Backing) (pvc : Pvc) (command : List String)
        → Ends env (run_creation_job rounds image backing pvc command)
    unfolding run_creation_job creation_job
    Ends-run_creation_job backing pvc command =
        Ends-create-wait env rounds prompt (creation_job image backing pvc command)

    Ends-clone :
        (backing : Backing) (dest_pvc source_pvc : Pvc) (capacity max_capacity : ℤ)
        → Ends env (clone_pvc lib rounds image backing dest_pvc capacity max_capacity source_pvc)
    unfolding clone_pvc
    Ends-clone backing dest_pvc source_pvc capacity max_capacity =
        Ends-bind env _ _
          (Ends-set_pvc_state_to env lib law source_pvc.name source_pvc.namespace "cloning")
          λ _.
            Ends-bind env _ _
              (Ends-or_fail env (parse_int (Dict.get source_pvc.annotations (key "/capacity"))) _)
              λ size.
                Ends-bind env _ _ (Ends-check_size "source volume capacity" size max_capacity) λ _.
                  Ends-bind env _ _ (Ends-run_creation_job backing dest_pvc _)
                    λ _. Ends-set_idle env source_pvc.name source_pvc.namespace

    Ends-create_image :
        (backing : Backing) (pvc : Pvc) (capacity max_capacity : ℤ)
        (source : Option VolumeContentSource)
        → Ends env (create_image lib rounds image backing pvc capacity max_capacity source)
    unfolding create_image create_volume_from_nothing create_volume_from_volume
        create_volume_from_snapshot
    Ends-create_image backing pvc capacity max_capacity none = Ends-run_creation_job backing pvc _
    Ends-create_image backing pvc capacity max_capacity (some (from_volume uid)) =
        Ends-bind env _ _ (Ends-find_pvc env (key "/uid=" <> uid))
          λ source. Ends-clone backing pvc source capacity max_capacity
    Ends-create_image backing pvc capacity max_capacity (some (from_snapshot uid)) =
        Ends-bind env _ _ (Ends-find_snapshot (key "/uid=" <> uid)) λ source.
          Ends-bind env _ _
            (Ends-or_fail env (parse_int (Dict.get source.annotations (key "/size"))) _)
            λ size.
              Ends-bind env _ _ (Ends-check_size "source snapshot size" size max_capacity)
                λ _. Ends-run_creation_job backing pvc _
    Ends-create_image backing pvc capacity max_capacity (some other_source) =
        Ends-fail env (Unit {0}) _

    pub Ends-create_volume :
        (req : CreateVolumeRequest) → Ends env (create_volume lib rounds image req)
    unfolding create_volume mark_pvc
    Ends-create_volume req =
        Ends-bind env _ _
          (Ends-lift env (get_parameter req.parameters "csi.storage.k8s.io/pvc/name"))
          λ name.
            Ends-bind env _ _
              (Ends-lift env (get_parameter req.parameters "csi.storage.k8s.io/pvc/namespace"))
              λ namespace.
                Ends-bind env _ _ (Ends-lift env (get_parameter req.parameters "backingClaimName"))
                  λ backing_name.
                    Ends-bind env _ _
                      (Ends-lift env (get_parameter req.parameters "backingClaimNamespace"))
                      λ backing_namespace.
                        Ends-bind env (call (get_pvc namespace name) lift) _
                          (Ends-call env _ _ (Ends-lift env))
                          λ pvc.
                            Ends-bind env _ _ (Ends-lift env (validate_capacity req.capacity_range))
                              λ capacities.
                                Ends-bind env _ _
                                  (Ends-lift env (check_capabilities req.volume_capabilities))
                                  λ _. Ends-bind env _ _ (Ends-patch_pvc env name namespace _) λ _.
                                    Ends-bind env _ _
                                      (Ends-create_image _ pvc capacities.capacity
                                        capacities.max_capacity req.volume_content_source)
                                      λ _. Ends-ret env _

    Ends-snapshot :
        (name namespace : String) (snapshot : VolumeSnapshot) (pvc : Pvc)
        → Ends env (snapshot_pvc lib rounds image name namespace snapshot pvc)
    unfolding snapshot_pvc snapshotting_job
    Ends-snapshot name namespace snapshot pvc =
        Ends-bind env _ _ (Ends-set_pvc_state_to env lib law pvc.name pvc.namespace "snapshotting")
          λ _.
            Ends-bind env _ _
              (Ends-or_fail env (parse_int (Dict.get pvc.annotations (key "/capacity"))) _)
              λ size. Ends-bind env _ _ (Ends-mark_snapshot name namespace snapshot _ size) λ _.
                Ends-create-wait_then env rounds prompt (snapshotting_job image pvc snapshot) _ λ _.
                  Ends-bind env _ _ (Ends-delete_job env rounds prompt _ _) λ _.
                    Ends-bind env _ _ (Ends-set_idle env pvc.name pvc.namespace)
                      λ _. Ends-ret env size

    pub Ends-create_snapshot :
        (req : CreateSnapshotRequest) → Ends env (create_snapshot lib rounds image req)
    unfolding create_snapshot
    Ends-create_snapshot req =
        Ends-bind env _ _
          (Ends-lift env (get_parameter req.parameters "csi.storage.k8s.io/volumesnapshot/name"))
          λ name.
            Ends-bind env _ _
              (Ends-lift env
                (get_parameter req.parameters "csi.storage.k8s.io/volumesnapshot/namespace"))
              λ namespace.
                Ends-bind env (call (get_volume_snapshot namespace name) lift) _
                  (Ends-call env _ _ (Ends-lift env))
                  λ snapshot.
                    Ends-bind env _ _ (Ends-find_pvc env (key "/uid=" <> req.source_volume_id))
                      λ pvc.
                        Ends-bind env _ _ (Ends-snapshot name namespace snapshot pvc)
                          λ size. Ends-call env _ _ (λ time. Ends-ret env _)

    Ends-expand : (pvc : Pvc) (capacity : ℤ) → Ends env (expand_image lib rounds image pvc capacity)
    unfolding expand_image record_capacity expansion_job
    Ends-expand pvc capacity =
        Ends-bind env _ _ (Ends-set_pvc_state_to env lib law pvc.name pvc.namespace "expanding")
          λ _. Ends-create-wait_then env rounds prompt (expansion_job image pvc capacity) _ λ _.
            Ends-bind env _ _ (Ends-delete_job env rounds prompt _ _) λ _.
              Ends-bind env _ _ (Ends-patch_pvc env pvc.name pvc.namespace _) λ _. Ends-ret env _

    pub Ends-controller_expand_volume :
        (req : ControllerExpandVolumeRequest)
        → Ends env (controller_expand_volume lib rounds image req)
    unfolding controller_expand_volume
    Ends-controller_expand_volume req =
        Ends-if env (req.volume_id == "") _ _ (Ends-fail env ControllerExpandVolumeResponse _) (
          Ends-bind env _ _ (Ends-lift env (validate_capacity req.capacity_range)) λ capacities.
            Ends-bind env _ _ (Ends-find_pvc env (key "/uid=" <> req.volume_id)) λ pvc.
              Ends-bind env _ _
                (Ends-or_fail env (parse_int (Dict.get pvc.annotations (key "/capacity"))) _)
                λ current.
                  Ends-bind env _ _
                    (Ends-check_size "current volume capacity" current capacities.max_capacity)
                    λ _.
                      Ends-if env (ltb_ℤ current capacities.capacity) _ _
                        (Ends-expand pvc capacities.capacity) (Ends-ret env _))
