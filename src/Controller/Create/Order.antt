-- ===== src/Controller/Create/Order.antt =====
-- The order of the calls that create a volume.
use subprovisioner.Base.{
  ℕ, not, ◌&&◌, ◌<>◌, String, ◌≡◌, refl, List, Option, none, some, ◌∷◌, [], inr,
}
use subprovisioner.Base.Int.{ℤ, pos, eq_ℤ, ltb_ℤ}
use subprovisioner.Strconv.{parse_int}
use subprovisioner.Base.Dict
use subprovisioner.Kube.Objects.{Pvc, VolumeSnapshot}
use subprovisioner.Kube.Errors.{ok, err, status, unknown}
use subprovisioner.Kube.Calls.{
  Call, History, get_pvc, update_pvc, patch_pvc, list_pvcs, list_volume_snapshots,
  create_job as create_job_call, get_job, sleep, back_off,
}
use subprovisioner.Kube.Contract.{
  Lasting, Meets, Success, Saw, Meets-then, Meets-or_fail, Meets-if, Meets-ret, Meets-fail,
}
use subprovisioner.Kube.Libraries.{Libraries, IsLawful}
use subprovisioner.Common.Config.{key, generate_creation_job_name}
use subprovisioner.Common.Pvc.{
  find_pvc_by_label_selector, strategic_merge_patch_pvc, set_pvc_state_to_idle,
}
use subprovisioner.Common.Pvc.Claim.{ClaimOrder, set_pvc_state_to-then}
use subprovisioner.Common.Snapshot.{find_volume_snapshot_by_label_selector}
use subprovisioner.Common.Job.Polling.{JobSucceeded, create_job-then, Meets-wait_for_job_to_succeed}
use subprovisioner.Controller.Requests.{
  VolumeContentSource, from_volume, from_snapshot, other_source,
}
use subprovisioner.Controller.Contents.{Runs, place_of, back_to_idle, creation-Runs}
use subprovisioner.Controller.Create.{
  Backing, creation_job, run_creation_job, create_volume_from_nothing, create_volume_from_volume,
  create_volume_from_snapshot, create_image, check_source_size, clone_pvc,
}

-- `Ready` is what must have happened before the job of a volume that `backing` and `pvc` describe.
module _ (image : String) (backing : Backing) (pvc : Pvc) (Ready : History → Type 0)
    (ready_lasting : Lasting Ready) where
  abbrev pub Filled : History → Type 0
  Filled = Saw (JobSucceeded backing.pvc_namespace (generate_creation_job_name pvc.uid))

  -- The calls that make the image of a volume.
  abbrev pub ImageOrder : History → Call → Type 0
  ImageOrder h (create_job_call namespace job) =
      Ready h
      × ((command : List String) × Runs job ("subprovisioner-create-" <> pvc.uid) image
            (place_of backing) command)
  ImageOrder h (get_job _ _) = Unit
  ImageOrder h (sleep _) = Unit
  ImageOrder h (get_pvc _ _) = Unit
  ImageOrder h (list_pvcs _) = Unit
  ImageOrder h (list_volume_snapshots _) = Unit
  ImageOrder h back_off = Unit
  ImageOrder h (update_pvc n written) =
      (namespace : String) × ((name : String) × ClaimOrder namespace name "cloning" h
          (update_pvc n written))
  ImageOrder h (patch_pvc n name patch) = Filled h × (patch ≡ back_to_idle)
  ImageOrder h _ = ⊥

  abbrev pub Done : History → Unit {0} → Type 0
  Done h _ = Ready h × Filled h

  claims_within :
      (n name : String) (h : History) (c : Call) → ClaimOrder n name "cloning" h c → ImageOrder h c
  claims_within n name h (get_pvc _ _) allowed = tt
  claims_within n name h (update_pvc m written) allowed = (n, (name, allowed))
  claims_within n name h back_off allowed = tt
  claims_within n name h _ allowed = elim allowed [ ]

  module _ (rounds : ℕ) where
    Meets-run_creation_job :
        (command : List String) (h : History)
        → Ready h
        → Meets ImageOrder (Success Done) h (run_creation_job rounds image backing pvc command)
    unfolding run_creation_job
    Meets-run_creation_job command h ready =
        create_job-then ImageOrder (λ h _. Ready h × Filled h) Ready ready_lasting
          (creation_job image backing pvc command) _ h ready
          (ready, (command, creation-Runs image backing pvc command))
          λ g ready₁ _.
            Meets-wait_for_job_to_succeed ImageOrder Ready ready_lasting
              (generate_creation_job_name pvc.uid) backing.pvc_namespace (λ _. tt) (λ _. tt) rounds
              g ready₁

    Meets-set_idle :
        (name namespace : String) (h : History)
        → Ready h
        → Filled h
        → Meets ImageOrder (Success Done) h (set_pvc_state_to_idle name namespace)
    unfolding Meets set_pvc_state_to_idle strategic_merge_patch_pvc
    Meets-set_idle name namespace h ready filled =
        ((filled, refl), elim [ ok _ ↦ (ready_lasting _ _ ready, inr filled) | err e ↦ tt ])

    abbrev ReadyOnly : History → Unit {0} → Type 0
    ReadyOnly h _ = Ready h

    Meets-check_source_size :
        (what : String) (size max_capacity : ℤ) (h : History)
        → Ready h
        → Meets ImageOrder (Success ReadyOnly) h (check_source_size what size max_capacity)
    unfolding check_source_size
    Meets-check_source_size what size max_capacity h ready =
        Meets-if ImageOrder (Success ReadyOnly) h
          (not (eq_ℤ max_capacity (pos 0)) && ltb_ℤ max_capacity size) _ _
          (λ _. Meets-fail ImageOrder ReadyOnly h _)
          (λ _. Meets-ret ImageOrder ReadyOnly h tt ready)

    Meets-find_pvc :
        (selector : String) (h : History)
        → Ready h
        → Meets ImageOrder
            (Success (λ g (_ : Pvc). Ready g))
            h
            (find_pvc_by_label_selector selector)
    unfolding Meets find_pvc_by_label_selector
    Meets-find_pvc selector h ready = (
      tt,
      elim [
        | ok [] ↦ tt
        | ok (_ ∷ []) ↦ ready_lasting _ _ ready
        | ok (_ ∷ _ ∷ _) ↦ tt
        | err e ↦ tt
      ],
    )

    Meets-find_volume_snapshot :
        (selector : String) (h : History)
        → Ready h
        → Meets ImageOrder
            (Success (λ g (_ : VolumeSnapshot). Ready g))
            h
            (find_volume_snapshot_by_label_selector selector)
    unfolding Meets find_volume_snapshot_by_label_selector
    Meets-find_volume_snapshot selector h ready = (
      tt,
      elim [
        | ok [] ↦ tt
        | ok (_ ∷ []) ↦ ready_lasting _ _ ready
        | ok (_ ∷ _ ∷ _) ↦ tt
        | err e ↦ tt
      ],
    )

    module _ (lib : Libraries) (law : IsLawful lib) (capacity max_capacity : ℤ) (h : History)
        (ready : Ready h) where
      Meets-clone :
          (uid : String)
          → Meets ImageOrder
              (Success Done)
              h
              (create_volume_from_volume lib rounds image backing pvc capacity max_capacity uid)
      unfolding create_volume_from_volume clone_pvc
      Meets-clone uid =
          Meets-then ImageOrder _ Done h _ _ (Meets-find_pvc _ h ready) λ h₁ source ready₁.
            set_pvc_state_to-then source.namespace source.name "cloning" ImageOrder
              (claims_within source.namespace source.name) Ready ready_lasting Done lib law _ h₁
              ready₁
              λ h₂ ready₂ _.
                Meets-then ImageOrder (λ g (_ : ℤ). Ready g) Done h₂ _ _
                  (Meets-or_fail ImageOrder (λ g (_ : ℤ). Ready g) h₂
                    (parse_int (Dict.get source.annotations (key "/capacity")))
                    (status unknown "failed to determine source volume capacity") (λ _ _. ready₂))
                  λ h₃ size ready₃.
                    Meets-then ImageOrder ReadyOnly Done h₃ _ _
                      (Meets-check_source_size "source volume capacity" size max_capacity h₃ ready₃)
                      λ h₄ _ ready₄.
                        Meets-then ImageOrder Done Done h₄ _ _ (Meets-run_creation_job _ h₄ ready₄)
                          λ h₅ _ done. Meets-set_idle source.name source.namespace h₅ done.0 done.1

      Meets-from_snapshot :
          (uid : String)
          → Meets ImageOrder
              (Success Done)
              h
              (create_volume_from_snapshot lib rounds image backing pvc capacity max_capacity uid)
      unfolding create_volume_from_snapshot
      Meets-from_snapshot uid =
          Meets-then ImageOrder _ Done h _ _ (Meets-find_volume_snapshot _ h ready)
            λ h₁ snapshot ready₁.
              Meets-then ImageOrder (λ g (_ : ℤ). Ready g) Done h₁ _ _
                (Meets-or_fail ImageOrder (λ g (_ : ℤ). Ready g) h₁
                  (parse_int (Dict.get snapshot.annotations (key "/size")))
                  (status unknown "failed to determine source snapshot size") (λ _ _. ready₁))
                λ h₂ size ready₂.
                  Meets-then ImageOrder ReadyOnly Done h₂ _ _
                    (Meets-check_source_size "source snapshot size" size max_capacity h₂ ready₂)
                    λ h₃ _ ready₃. Meets-run_creation_job _ h₃ ready₃

      pub Meets-create_image :
          (source : Option VolumeContentSource)
          → Meets ImageOrder
              (Success Done)
              h
              (create_image lib rounds image backing pvc capacity max_capacity source)
      unfolding create_image create_volume_from_nothing
      Meets-create_image none = Meets-run_creation_job _ h ready
      Meets-create_image (some (from_volume uid)) = Meets-clone uid
      Meets-create_image (some (from_snapshot uid)) = Meets-from_snapshot uid
      Meets-create_image (some other_source) = Meets-fail ImageOrder Done h _
