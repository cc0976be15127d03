-- ===== src/Cluster/Taking/Programs.antt =====
-- The parts of the three programs that take a volume: expansion, snapshot, clone.
use subprovisioner.Base.{List, not, ◌&&◌, ℕ, String, refl, Option, []}
use subprovisioner.Base.Int.{ℤ, pos, eq_ℤ, ltb_ℤ}
use subprovisioner.Base.Dict
use subprovisioner.Strconv.{parse_int}
use subprovisioner.Kube.Objects.{Pvc, VolumeSnapshot, MetaPatch}
use subprovisioner.Kube.Errors.{Error, ok, err, status, unknown}
use subprovisioner.Kube.Calls.{Call, History}
use subprovisioner.Kube.Contract.{
  Outcome, returned, failed, polling, Meets-then, Meets-ret, Meets-fail, Meets, Success, Saw,
  Meets-weaken, Meets-or_fail, Meets-if,
}
use subprovisioner.Kube.Prog.{Prog, ret, or_fail, ◌>>=◌}
use subprovisioner.Kube.Libraries.{Libraries, IsLawful}
use subprovisioner.Common.Config.{key, generate_creation_job_name}
use subprovisioner.Common.Pvc.{strategic_merge_patch_pvc, set_pvc_state_to_idle}
use subprovisioner.Common.Pvc.Claim.{set_pvc_state_to_claims}
use subprovisioner.Common.Pvc.Exclusion.{Purpose, expanding, cloning, snapshotting}
use subprovisioner.Common.Snapshot.{merge_patch_volume_snapshot}
use subprovisioner.Common.Job.{
  JobConfig, create_job, wait_for_job_to_succeed, delete_job_synchronously,
}
use subprovisioner.Common.Job.Polling.{
  JobMade, JobSucceeded, JobGone, Meets-create_job, Meets-wait_for_job_to_succeed,
  Meets-delete_job_synchronously,
}
use subprovisioner.Controller.Create.{
  creation_job, Backing, clone_pvc, run_creation_job, check_source_size,
}
use subprovisioner.Controller.Expand.{expand_image, record_capacity}
use subprovisioner.Controller.Snapshot.{mark_snapshot, snapshot_pvc}
use subprovisioner.Cluster.Roles.{SetsIdle, AnyEnd}
use subprovisioner.Cluster.Taking.{Quiet, Busy, TakerOrder, Quiet-then, take-then}

module _ (lib : Libraries) (law : IsLawful lib) (rounds : ℕ) (pvc : Pvc) where
  abbrev TakenOrder : Purpose → History → Call → Type 0
  TakenOrder = TakerOrder lib law pvc.namespace pvc.name

  abbrev Holds : Purpose → History → Type 0
  Holds = Busy lib law pvc.namespace pvc.name

  module _ {ℓ κ} {A : Type ℓ} {B : Type κ} (purpose : Purpose) where
    -- A part that a taker runs while it holds the volume.
    quietly :
        (Post : History → Outcome A → Type 0) (f : A → Prog B) (h : History) (m : Prog A)
        → Meets Quiet Post h m
        → Holds purpose h
        → ((g : History) (a : A) → Holds purpose g → Meets (TakenOrder purpose) AnyEnd g (f a))
        → Meets (TakenOrder purpose) AnyEnd h (m >>= f)
    quietly Post f h m quiet holds rest =
        Quiet-then lib law pvc.namespace pvc.name purpose f Post h m quiet holds rest

  Meets-freeing {ℓ} :
      {A : Type ℓ} (purpose : Purpose) (patch : MetaPatch) (f : Unit {0} → Prog A) (h : History)
      → SetsIdle patch
      → ((g : History) → Meets (TakenOrder purpose) AnyEnd g (f tt))
      → Holds purpose h
      → Meets
          (TakenOrder purpose)
          AnyEnd
          h
          (strategic_merge_patch_pvc pvc.name pvc.namespace patch >>= f)
  unfolding Meets strategic_merge_patch_pvc
  Meets-freeing purpose patch f h idle rest holds =
      ((refl, refl, holds, idle), elim [ ok _ ↦ rest _ | err e ↦ tt ])

  Meets-set_idle :
      (purpose : Purpose) (h : History)
      → Holds purpose h
      → Meets (TakenOrder purpose) AnyEnd h (set_pvc_state_to_idle pvc.name pvc.namespace)
  unfolding Meets set_pvc_state_to_idle strategic_merge_patch_pvc
  Meets-set_idle purpose h holds =
      ((refl, refl, holds, λ old. (refl, refl)), elim [ ok _ ↦ tt | err e ↦ tt ])

  Quiet-job :
      (config : JobConfig) (h : History)
      → Meets Quiet (Success (λ g _. Unit {0} × Saw (JobMade config) g)) h (create_job config)
  Quiet-job config h = Meets-create_job Quiet (λ _. Unit {0}) (λ _ _ _. tt) config h tt tt

  module _ (name namespace : String) (h : History) where
    Quiet-wait :
        Meets Quiet
          (Success (λ g _. Unit {0} × Saw (JobSucceeded namespace name) g))
          h
          (wait_for_job_to_succeed rounds name namespace)
    Quiet-wait =
        Meets-wait_for_job_to_succeed Quiet (λ _. Unit {0}) (λ _ _ _. tt) name namespace (λ _. tt)
          (λ _. tt) rounds h tt

    Quiet-removal :
        Meets Quiet
          (Success (λ g _. Unit {0} × Saw (JobGone namespace name) g))
          h
          (delete_job_synchronously rounds name namespace)
    Quiet-removal =
        Meets-delete_job_synchronously Quiet (λ _. Unit {0}) (λ _ _ _. tt) name namespace (λ _. tt)
          (λ _. tt) rounds h tt tt

  Quiet-mark :
      (name namespace : String) (snapshot : VolumeSnapshot) (backing : Backing) (size : ℤ)
      (h : History)
      → Meets Quiet AnyEnd h (mark_snapshot name namespace snapshot backing size)
  unfolding Meets mark_snapshot merge_patch_volume_snapshot
  Quiet-mark name namespace snapshot backing size h = (tt, elim [ ok _ ↦ tt | err e ↦ tt ])

  Quiet-check :
      (what : String) (size max_capacity : ℤ) (h : History)
      → Meets Quiet (Success (λ _ _. Unit {0})) h (check_source_size what size max_capacity)
  unfolding check_source_size
  Quiet-check what size max_capacity h =
      Meets-if Quiet (Success (λ _ _. Unit {0})) h
        (not (eq_ℤ max_capacity (pos 0)) && ltb_ℤ max_capacity size) _ _
        (λ _. Meets-fail Quiet (λ _ _. Unit {0}) h _)
        (λ _. Meets-ret Quiet (λ _ _. Unit {0}) h tt tt)

  Quiet-creation :
      (image : String) (backing : Backing) (dest_pvc : Pvc) (command : List String) (h : History)
      → Meets Quiet
          (Success (λ _ _. Unit {0}))
          h
          (run_creation_job rounds image backing dest_pvc command)
  unfolding run_creation_job
  Quiet-creation image backing dest_pvc command h =
      Meets-then Quiet _ _ h _ _ (Quiet-job (creation_job image backing dest_pvc command) h)
        λ g _ _.
          Meets-weaken Quiet _ _ g _
            (Quiet-wait (generate_creation_job_name dest_pvc.uid) backing.pvc_namespace g)
            λ k. elim [ returned _ ↦ λ _. tt | failed _ ↦ λ _. tt | polling ↦ λ _. tt ]

  Quiet-parse :
      (found : Option ℤ) (e : Error) (h : History)
      → Meets Quiet (Success (λ _ _. Unit {0})) h (or_fail found e)
  Quiet-parse found e h = Meets-or_fail Quiet (λ _ _. Unit {0}) h found e (λ _ _. tt)

  ended {ℓ} :
      {A : Type ℓ} (purpose : Purpose) (h : History) (a : A)
      → Meets (TakenOrder purpose) AnyEnd h (ret a)
  unfolding Meets
  ended purpose h a = tt

  pub Meets-expand :
      (image : String) (capacity : ℤ)
      → Meets (TakenOrder expanding) AnyEnd [] (expand_image lib rounds image pvc capacity)
  unfolding expand_image record_capacity
  Meets-expand image capacity =
      take-then lib law pvc.namespace pvc.name expanding _ [] _
        (set_pvc_state_to_claims pvc.namespace pvc.name "expanding" lib law) tt
        λ h₁ _ holds₁. quietly expanding _ _ h₁ _ (Quiet-job _ h₁) holds₁ λ h₂ _ holds₂.
          quietly expanding _ _ h₂ _ (Quiet-wait _ _ h₂) holds₂ λ h₃ _ holds₃.
            quietly expanding _ _ h₃ _ (Quiet-removal _ _ h₃) holds₃ λ h₄ _.
              Meets-freeing expanding _ _ h₄ (λ old. (refl, refl)) (λ g. ended expanding g _)

  pub Meets-snapshot :
      (image name namespace : String) (snapshot : VolumeSnapshot)
      → Meets
          (TakenOrder snapshotting)
          AnyEnd
          []
          (snapshot_pvc lib rounds image name namespace snapshot pvc)
  unfolding snapshot_pvc set_pvc_state_to_idle
  Meets-snapshot image name namespace snapshot =
      take-then lib law pvc.namespace pvc.name snapshotting _ [] _
        (set_pvc_state_to_claims pvc.namespace pvc.name "snapshotting" lib law) tt
        λ h₁ _ holds₁.
          quietly snapshotting (Success (λ _ (_ : ℤ). Unit {0})) _ h₁
            (or_fail (parse_int (Dict.get pvc.annotations (key "/capacity")))
              (status unknown "failed to determine snapshot size"))
            (Quiet-parse _ _ h₁) holds₁
            λ h₂ size holds₂.
              quietly snapshotting _ _ h₂ _ (Quiet-mark name namespace snapshot _ size h₂) holds₂
                λ h₃ _ holds₃. quietly snapshotting _ _ h₃ _ (Quiet-job _ h₃) holds₃ λ h₄ _ holds₄.
                  quietly snapshotting _ _ h₄ _ (Quiet-wait _ _ h₄) holds₄ λ h₅ _ holds₅.
                    quietly snapshotting _ _ h₅ _ (Quiet-removal _ _ h₅) holds₅ λ h₆ _.
                      Meets-freeing snapshotting _ _ h₆ (λ old. (refl, refl))
                        (λ g. ended snapshotting g _)

  pub Meets-clone :
      (image : String) (backing : Backing) (dest_pvc : Pvc) (capacity max_capacity : ℤ)
      → Meets
          (TakenOrder cloning)
          AnyEnd
          []
          (clone_pvc lib rounds image backing dest_pvc capacity max_capacity pvc)
  unfolding clone_pvc set_pvc_state_to_idle
  Meets-clone image backing dest_pvc capacity max_capacity =
      take-then lib law pvc.namespace pvc.name cloning _ [] _
        (set_pvc_state_to_claims pvc.namespace pvc.name "cloning" lib law) tt
        λ h₁ _ holds₁.
          quietly cloning (Success (λ _ (_ : ℤ). Unit {0})) _ h₁
            (or_fail (parse_int (Dict.get pvc.annotations (key "/capacity")))
              (status unknown "failed to determine source volume capacity"))
            (Quiet-parse _ _ h₁) holds₁
            λ h₂ size holds₂.
              quietly cloning _ _ h₂ _ (Quiet-check _ size max_capacity h₂) holds₂ λ h₃ _ holds₃.
                quietly cloning _ _ h₃ _ (Quiet-creation image backing dest_pvc _ h₃) holds₃
                  λ h₄ _ holds₄. Meets-set_idle cloning h₄ holds₄
