-- ===== src/Controller/Create/Sizes.antt =====
-- The size of the image that a creation makes, and the size that it reports.
pub mod Reported
use subprovisioner.Base.{
  String, ℕ, ◌<>◌, ◌≡◌, refl, Option, none, some, List, [], ◌∷◌, inl, inr, sym, ◌⊎◌, true, false,
  Bool-cases,
}
use subprovisioner.Base.Int.{ℤ, ltb_ℤ, ltb-asym}
use subprovisioner.Base.Dict
use subprovisioner.Strconv.{parse_int, format_int}
use subprovisioner.Kube.Objects.{Pvc, VolumeSnapshot, Job}
use subprovisioner.Kube.Errors.{ok, err, status, unknown, is_already_exists}
use subprovisioner.Kube.Calls.{
  Call, Event, event, create_job, History, get_pvc, list_pvcs, list_volume_snapshots,
}
use subprovisioner.Kube.Contract.{
  Lasting, Meets, Success, Saw, Saw-map, Meets-then, Meets-lift, Meets-or_fail, Meets-ret,
  Meets-fail, AnyCall, Meets-any, Meets-weaken, returned, failed, polling,
}
use subprovisioner.Kube.Prog.{Prog, call, lift}
use subprovisioner.Kube.Libraries.{Libraries, IsLawful}
use subprovisioner.Common.Config.{key, generate_volume_image_path, generate_creation_job_name}
use subprovisioner.Common.Pvc.{
  find_pvc_by_label_selector, strategic_merge_patch_pvc, set_pvc_state_to, set_pvc_state_to_idle,
}
use subprovisioner.Common.Pvc.Claim.{set_pvc_state_to-then}
use subprovisioner.Common.Snapshot.{find_volume_snapshot_by_label_selector}
use mathlib.Core.Path.{subst}
use subprovisioner.Common.Job.{JobConfig, job_of}
use subprovisioner.Common.Job.Polling.{JobMade, create_job-then, Meets-wait_for_job_to_succeed}
use subprovisioner.Controller.Capacity.{Capacities, validate_capacity}
use subprovisioner.Controller.Requests.{
  VolumeContentSource, from_volume, from_snapshot, other_source, CreateVolumeRequest,
  CreateVolumeResponse,
}
use subprovisioner.Controller.Create.{
  Backing, creation_job, run_creation_job, create_volume_from_nothing, create_volume_from_volume,
  create_volume_from_snapshot, create_image, check_source_size, clone_pvc, clone_script, at_least,
  mark_pvc, create_volume,
}
use subprovisioner.Controller.Contents.{IsLarger, Runs, place_of, creation-Runs}
use subprovisioner.Controller.Create.Sources.{
  empty_command, based_command, cloned_command, FoundPvc, FoundSnapshot, PvcSize, SnapshotSize,
  Meets-find_pvc, Meets-find_volume_snapshot, PvcSize-Lasting, SnapshotSize-Lasting,
}
use subprovisioner.Controller.Create.Whole.{asked_backing, get_parameter-then}

pub at_least-IsLarger : (size capacity : ℤ) → IsLarger size capacity (at_least size capacity)
at_least-IsLarger size capacity = elim (Bool-cases (ltb_ℤ capacity size)) [
  | inl above ↦ inl (rw above refl, ltb-asym capacity size above)
  | inr below ↦ inr (rw below refl, below)
]

module _ (image : String) (backing : Backing) (pvc : Pvc) where
  abbrev IsCreation : List String → String → Job → Type 0
  IsCreation command n job =
      (n ≡ backing.pvc_namespace)
      × Runs job ("subprovisioner-create-" <> pvc.uid) image (place_of backing) command

  -- A creation job with this command was submitted: the server accepted it, or answered that there
  -- is a job of this name.
  abbrev pub Submitted : List String → Event → Type 0
  Submitted command (event (create_job n job) (ok _)) = IsCreation command n job
  Submitted command (event (create_job n job) (err e)) =
      IsCreation command n job × (is_already_exists e ≡ true)
  Submitted command _ = ⊥

  same_job :
      (command : List String) (n : String) (job : Job)
      → n ≡ (creation_job image backing pvc command).namespace
      → job ≡ job_of (creation_job image backing pvc command)
      → IsCreation command n job
  unfolding creation_job
  same_job command n job namespace same = (
    namespace,
    subst (λ job. Runs job ("subprovisioner-create-" <> pvc.uid) image (place_of backing) command)
        (sym same) (creation-Runs image backing pvc command),
  )

  Submitted-JobMade :
      (command : List String) (e : Event)
      → JobMade (creation_job image backing pvc command) e
      → Submitted command e
  Submitted-JobMade command (event (create_job n job) (ok _)) made =
      same_job command n job made.0 made.1
  Submitted-JobMade command (event (create_job n job) (err e)) made =
      (same_job command n job made.0 made.1, made.2)
  Submitted-JobMade command _ made = elim made [ ]

  -- A source was found with its size, and the job's command is given the larger of that size and the
  -- capacity.
  pub record MadeFromSource {A : Type 0} (Size : A → ℤ → History → Type 0)
      (Command : A → ℤ → List String) (capacity : ℤ) (h : History) : Type 0 where
    pub source : A
    pub size : ℤ
    pub found : Size source size h
    pub given : ℤ
    pub larger : IsLarger size capacity given
    pub submitted : Saw (Submitted (Command source given)) h

  -- The job's command is that for the kind of source, with the size that goes with it.
  abbrev pub MadeFrom : Option VolumeContentSource → ℤ → History → Type 0
  MadeFrom none capacity h = Saw (Submitted (empty_command pvc.uid capacity)) h
  MadeFrom (some (from_volume uid)) capacity h =
      MadeFromSource (PvcSize uid) (cloned_command pvc.uid) capacity h
  MadeFrom (some (from_snapshot uid)) capacity h =
      MadeFromSource (SnapshotSize uid) (based_command pvc.uid) capacity h
  MadeFrom (some other_source) capacity h = ⊥

  module _ (rounds : ℕ) (Known : History → Type 0) (lasting : Lasting Known) where
    abbrev Made : List String → History → Type 0
    Made command h = Known h × Saw (Submitted command) h

    Meets-run_creation_job :
        (command : List String) (h : History)
        → Known h
        → Meets AnyCall
            (Success (λ g (_ : Unit {0}). Made command g))
            h
            (run_creation_job rounds image backing pvc command)
    unfolding run_creation_job
    Meets-run_creation_job command h known =
        create_job-then AnyCall (λ g _. Made command g) Known lasting
          (creation_job image backing pvc command) _ h known tt
          λ g known₁ made.
            Meets-any (Made command) (λ h e kept. (lasting h e kept.0, inr kept.1)) g _
              (known₁, Saw-map _ _ (Submitted-JobMade command) g made)

  MadeFromSource-Lasting :
      {A : Type 0} (Size : A → ℤ → History → Type 0)
      → ((source : A) (size : ℤ) → Lasting (Size source size))
      → (Command : A → ℤ → List String) (capacity : ℤ)
      → Lasting (MadeFromSource Size Command capacity)
  MadeFromSource-Lasting Size lasting Command capacity h e from = record {
    source = from.source;
    size = from.size;
    found = lasting from.source from.size h e from.found;
    given = from.given;
    larger = from.larger;
    submitted = inr from.submitted;
  }

  module _ (lib : Libraries) (rounds : ℕ) (capacity max_capacity : ℤ) where
    -- The end of each of the two: the job is made with the larger size.
    Meets-made :
        {A : Type 0} (Size : A → ℤ → History → Type 0)
        → ((source : A) (size : ℤ) → Lasting (Size source size))
        → (Command : A → ℤ → List String) (source : A) (size : ℤ) (h : History) → Size source size h
        → Meets AnyCall
            (Success (λ g (_ : Unit {0}). MadeFromSource Size Command capacity g))
            h
            (run_creation_job rounds image backing pvc (Command source (at_least size capacity)))
    Meets-made Size lasting Command source size h found =
        let command = Command source (at_least size capacity) in
        Meets-weaken AnyCall
          (Success (λ g (_ : Unit {0}). Size source size g × Saw (Submitted command) g))
          (Success (λ g (_ : Unit {0}). MadeFromSource Size Command capacity g)) h
          (run_creation_job rounds image backing pvc command)
          (Meets-run_creation_job rounds (Size source size) (lasting source size) command h found)
          λ g. elim [
            | returned _ ↦ λ made. record {
              source = source;
              size = size;
              found = made.0;
              given = at_least size capacity;
              larger = at_least-IsLarger size capacity;
              submitted = made.1;
            }
            | failed _ ↦ λ _. tt
            | polling ↦ λ _. tt
          ]

    Meets-clone :
        (uid : String) (h : History)
        → Meets AnyCall
            (Success (λ g (_ : Unit {0}).
              MadeFromSource (PvcSize uid) (cloned_command pvc.uid) capacity g))
            h
            (create_volume_from_volume lib rounds image backing pvc capacity max_capacity uid)
    unfolding create_volume_from_volume clone_pvc generate_volume_image_path
    Meets-clone uid h =
        let From : History → Type 0 =
          MadeFromSource (PvcSize uid) (cloned_command pvc.uid) capacity in
        let Q : History → Unit {0} → Type 0 = λ g _. From g in
        Meets-then AnyCall (λ g source. Saw (FoundPvc (key "/uid=" <> uid) source) g) Q h _ _
          (Meets-find_pvc (key "/uid=" <> uid) h)
          λ h₁ source found.
            let Found : History → Type 0 = Saw (FoundPvc (key "/uid=" <> uid) source) in
            Meets-then AnyCall (λ g (_ : Unit {0}). Found g) Q h₁
              (set_pvc_state_to lib source.name source.namespace "cloning") _
              (Meets-any Found (λ _ _. inr) h₁
                (set_pvc_state_to lib source.name source.namespace "cloning") found)
              λ h₂ _ found₂.
                Meets-then AnyCall (λ g size. PvcSize uid source size g) Q h₂ _ _
                  (Meets-or_fail AnyCall (λ g size. PvcSize uid source size g) h₂
                    (parse_int (Dict.get source.annotations (key "/capacity")))
                    (status unknown "failed to determine source volume capacity")
                    (λ _ parsed. (found₂, parsed)))
                  λ h₃ size sized.
                    Meets-then AnyCall (λ g (_ : Unit {0}). PvcSize uid source size g) Q h₃
                      (check_source_size "source volume capacity" size max_capacity) _
                      (Meets-any (PvcSize uid source size) (PvcSize-Lasting uid source size) h₃
                        (check_source_size "source volume capacity" size max_capacity) sized)
                      λ h₄ _ sized₄.
                        Meets-then AnyCall Q Q h₄ _ _
                          (Meets-made (PvcSize uid) (PvcSize-Lasting uid) (cloned_command pvc.uid)
                            source size h₄ sized₄)
                          λ h₅ _ made.
                            Meets-any From
                              (MadeFromSource-Lasting (PvcSize uid) (PvcSize-Lasting uid)
                                (cloned_command pvc.uid) capacity)
                              h₅ (set_pvc_state_to_idle source.name source.namespace) made

    Meets-from_snapshot :
        (uid : String) (h : History)
        → Meets AnyCall
            (Success (λ g (_ : Unit {0}).
              MadeFromSource (SnapshotSize uid) (based_command pvc.uid) capacity g))
            h
            (create_volume_from_snapshot lib rounds image backing pvc capacity max_capacity uid)
    unfolding create_volume_from_snapshot
    Meets-from_snapshot uid h =
        let Q : History → Unit {0} → Type 0 =
          λ g _. MadeFromSource (SnapshotSize uid) (based_command pvc.uid) capacity g in
        Meets-then AnyCall (λ g source. Saw (FoundSnapshot (key "/uid=" <> uid) source) g) Q h _ _
          (Meets-find_volume_snapshot (key "/uid=" <> uid) h)
          λ h₁ source found.
            Meets-then AnyCall (λ g size. SnapshotSize uid source size g) Q h₁ _ _
              (Meets-or_fail AnyCall (λ g size. SnapshotSize uid source size g) h₁
                (parse_int (Dict.get source.annotations (key "/size")))
                (status unknown "failed to determine source snapshot size")
                (λ _ parsed. (found, parsed)))
              λ h₂ size sized.
                Meets-then AnyCall (λ g (_ : Unit {0}). SnapshotSize uid source size g) Q h₂
                  (check_source_size "source snapshot size" size max_capacity) _
                  (Meets-any (SnapshotSize uid source size) (SnapshotSize-Lasting uid source size)
                    h₂ (check_source_size "source snapshot size" size max_capacity) sized)
                  λ h₃ _ sized₃.
                    Meets-made (SnapshotSize uid) (SnapshotSize-Lasting uid) (based_command pvc.uid)
                      source size h₃ sized₃

    pub Meets-create_image :
        (source : Option VolumeContentSource) (h : History)
        → Meets AnyCall
            (Success (λ g (_ : Unit {0}). MadeFrom source capacity g))
            h
            (create_image lib rounds image backing pvc capacity max_capacity source)
    unfolding create_image create_volume_from_nothing generate_volume_image_path
    Meets-create_image none h =
        Meets-weaken AnyCall _ _ h _
          (Meets-run_creation_job rounds (λ _. Unit {0}) (λ _ _ _. tt)
            (empty_command pvc.uid capacity) h tt)
          λ g. elim [ returned _ ↦ λ made. made.1 | failed _ ↦ λ _. tt | polling ↦ λ _. tt ]
    Meets-create_image (some (from_volume uid)) h = Meets-clone uid h
    Meets-create_image (some (from_snapshot uid)) h = Meets-from_snapshot uid h
    Meets-create_image (some other_source) h = Meets-fail AnyCall _ h _
