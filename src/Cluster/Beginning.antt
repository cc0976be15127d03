-- ===== src/Cluster/Beginning.antt =====
-- A snapshot or a clone that reads the volume already in its state, up to the creation of its job.
use mathlib.Core.Path.{subst}
use subprovisioner.Base.{ℕ, String, ◌≡◌, refl, ◌==◌, true, false, not, ◌&&◌, ◌<>◌, some, Option}
use subprovisioner.Base.Int.{ℤ, pos, eq_ℤ, ltb_ℤ}
use subprovisioner.Kube.Objects.{Pvc, VolumeSnapshot, Job, MetaPatch}
use subprovisioner.Kube.Errors.{ok, Result, Error, status, unknown}
use subprovisioner.Kube.Calls.{get_pvc, create_job as create_job_call, patch_volume_snapshot}
use subprovisioner.Kube.Prog.{Prog, ret, call, ◌>>=◌, ◌>>◌, or_fail}
use subprovisioner.Kube.Libraries.{Libraries, IsLawful}
use subprovisioner.Common.Pvc.{
  is_set, set_pvc_state_attempt, set_pvc_state_to, leave_state, set_pvc_state_to_idle,
}
use subprovisioner.Common.Pvc.Nodes.{state_of}
use subprovisioner.Common.Pvc.Exclusion.{Purpose, purpose_state, cloning, snapshotting}
use subprovisioner.Controller.Create.{
  Backing, clone_pvc, run_creation_job, check_source_size, at_least,
}
use subprovisioner.Controller.Snapshot.{snapshot_pvc, snapshotting_job, mark_snapshot, backing_of}
use subprovisioner.Base.Dict
use subprovisioner.Strconv.{parse_int}
use subprovisioner.Common.Job.{create_job, wait_for_job_to_succeed, delete_job_synchronously}
use subprovisioner.Common.Config.{generate_snapshotting_job_name, generate_volume_image_path}
use subprovisioner.Controller.Contents.{
  IsLarger, Runs, annotated_place, place_of, creation-Runs, snapshotting-Runs,
}
use subprovisioner.Controller.Create.Sizes.{at_least-IsLarger}
use subprovisioner.Controller.Create.Sources.{cloned_command}
use subprovisioner.Controller.Snapshot.Order.{snapshot_command}
use subprovisioner.Common.Snapshot.{merge_patch_volume_snapshot}
use subprovisioner.Cluster.Going.{
  PassesWith, passes, PassesWith-Attempts, GoesOn, GoesOn-take, GoesOn-bind,
}
use subprovisioner.Cluster.Workers.{Worker, snapshotter, cloner, work, without_answer}

-- A snapshot or a clone of the claim whose annotated capacity is known, and for a clone allowed.
pub data Second (namespace name : String) : Type 0 where
  snapshots :
      (pvc : Pvc)
      → pvc.namespace ≡ namespace
      → pvc.name ≡ name
      → (snapshot_name snapshot_namespace : String) (snapshot : VolumeSnapshot) (size : ℤ)
      → parse_int (Dict.get pvc.annotations "subprovisioner.gitlab.io/capacity") ≡ some size
      → Second namespace name
  clones :
      (pvc : Pvc)
      → pvc.namespace ≡ namespace
      → pvc.name ≡ name
      → (backing : Backing) (dest_pvc : Pvc) (capacity max_capacity size : ℤ)
      → parse_int (Dict.get pvc.annotations "subprovisioner.gitlab.io/capacity") ≡ some size
      → (not (eq_ℤ max_capacity (pos 0)) && ltb_ℤ max_capacity size) ≡ false
      → Second namespace name

module _ {namespace name : String} (image : String) where
  abbrev pub worker_of : Second namespace name → Worker namespace name
  worker_of (snapshots pvc n m own_name own_namespace snapshot _ _) =
      snapshotter pvc n m image own_name own_namespace snapshot
  worker_of (clones pvc n m backing dest_pvc capacity max_capacity _ _ _) =
      cloner pvc n m image backing dest_pvc capacity max_capacity

  -- The job that replaces the image of the volume.
  abbrev pub Replaces : Second namespace name → Job → Type 0
  Replaces (snapshots pvc _ _ own_name own_namespace snapshot _ _) job =
      Runs job ("subprovisioner-snapshot-" <> snapshot.uid) image (annotated_place pvc)
        (snapshot_command image own_name own_namespace snapshot pvc)
  Replaces (clones pvc _ _ backing dest_pvc capacity _ size _ _) job =
      (given : ℤ) × IsLarger size capacity given
      × Runs job ("subprovisioner-create-" <> dest_pvc.uid) image (place_of backing)
          (cloned_command dest_pvc.uid pvc given)

abbrev pub purpose_of : {namespace name : String} → Second namespace name → Purpose
purpose_of (snapshots _ _ _ _ _ _ _ _) = snapshotting
purpose_of (clones _ _ _ _ _ _ _ _ _ _) = cloning

-- The program's next call creates such a job.
pub record Creates (Wanted : Job → Type 0) (program : Prog (Unit {0})) : Type 0 where
  pub job : Job
  pub wanted : Wanted job
  pub namespace : String
  pub make : Result (Unit {0}) → Prog (Unit {0})
  pub next_call : program ≡ call (create_job_call namespace job) make

-- The program creates such a job, at once or after a patch of a snapshot.
pub data Leads (Wanted : Job → Type 0) (program : Prog (Unit {0})) : Type 0 where
  at_once : Creates Wanted program → Leads Wanted program
  after_patch :
      (n m : String) (patch : MetaPatch) (k : Result (Unit {0}) → Prog (Unit {0}))
      → program ≡ call (patch_volume_snapshot n m patch) k
      → Creates Wanted (k (ok tt))
      → Leads Wanted program

module _ (lib : Libraries) (law : IsLawful lib) (rounds : ℕ) (claim : Pvc)
    (alive : is_set claim.deletion_timestamp ≡ false) where
  PassesWith-take :
      (name namespace state : String)
      → (state_of claim == state) ≡ true
      → PassesWith (get_pvc namespace name) (ok claim) (set_pvc_state_to lib name namespace state)
  unfolding set_pvc_state_to set_pvc_state_attempt leave_state
  PassesWith-take name namespace state there =
      PassesWith-Attempts (get_pvc namespace name) (ok claim)
        (passes _ refl (rw (alive, there) refl)) (law.retries _)

  module _ (image : String) where
    -- What a snapshot does with the volume once it is taken and its size is known.
    abbrev snapshot_taken : Pvc → String → String → VolumeSnapshot → ℤ → Prog ℤ
    snapshot_taken pvc own_name own_namespace snapshot size = do
      mark_snapshot own_name own_namespace snapshot (backing_of pvc) size
      create_job (snapshotting_job image pvc snapshot)
      wait_for_job_to_succeed rounds (generate_snapshotting_job_name snapshot.uid)
          (backing_of pvc).pvc_namespace
      delete_job_synchronously rounds (generate_snapshotting_job_name snapshot.uid)
          (backing_of pvc).pvc_namespace
      set_pvc_state_to_idle pvc.name pvc.namespace
      ret size

    -- A size that is known is handed on.
    known_size {ℓ} :
        {A : Type ℓ} (annotation : Option ℤ) (size : ℤ) (e : Error) (f : ℤ → Prog A)
        → annotation ≡ some size
        → (or_fail annotation e >>= f) ≡ f size
    known_size annotation size e f known = rw known refl

    GoesOn-snapshot :
        (pvc : Pvc) (own_name own_namespace : String) (snapshot : VolumeSnapshot) (size : ℤ)
        → parse_int (Dict.get pvc.annotations "subprovisioner.gitlab.io/capacity") ≡ some size
        → (state_of claim == "snapshotting") ≡ true
        → GoesOn
            (get_pvc pvc.namespace pvc.name)
            (ok claim)
            (snapshot_pvc lib rounds image own_name own_namespace snapshot pvc)
            (snapshot_taken pvc own_name own_namespace snapshot size)
    unfolding snapshot_pvc
    GoesOn-snapshot pvc own_name own_namespace snapshot size parsed there =
        let read = get_pvc pvc.namespace pvc.name in
        let taken = snapshot_taken pvc own_name own_namespace snapshot in
        let e = status unknown "failed to determine snapshot size" in
        subst
          (λ rest.
            GoesOn read (ok claim)
              (snapshot_pvc lib rounds image own_name own_namespace snapshot pvc) rest)
          (known_size (parse_int (Dict.get pvc.annotations "subprovisioner.gitlab.io/capacity"))
            size e taken parsed)
          (GoesOn-take read (ok claim) (set_pvc_state_to lib pvc.name pvc.namespace "snapshotting")
            (λ _.
              or_fail (parse_int (Dict.get pvc.annotations "subprovisioner.gitlab.io/capacity")) e
              >>= taken)
            (PassesWith-take pvc.name pvc.namespace "snapshotting" there))

    Leads-snapshot :
        (pvc : Pvc) (own_name own_namespace : String) (snapshot : VolumeSnapshot) (size : ℤ)
        → Leads
            (λ job.
              Runs job
                ("subprovisioner-snapshot-" <> snapshot.uid)
                image
                (annotated_place pvc)
                (snapshot_command image own_name own_namespace snapshot pvc))
            (without_answer (snapshot_taken pvc own_name own_namespace snapshot size))
    unfolding mark_snapshot merge_patch_volume_snapshot create_job
    Leads-snapshot pvc own_name own_namespace snapshot size = after_patch _ _ _ _ refl (record {
      job = _;
      wanted = snapshotting-Runs image pvc snapshot;
      namespace = _;
      make = _;
      next_call = refl;
    })

    -- What a clone does with the volume once it is taken and its size is known and allowed.
    abbrev clone_taken : Pvc → Backing → Pvc → ℤ → ℤ → Prog (Unit {0})
    clone_taken pvc backing dest_pvc capacity size = do
      run_creation_job rounds image backing dest_pvc
          (cloned_command dest_pvc.uid pvc (at_least size capacity))
      set_pvc_state_to_idle pvc.name pvc.namespace

    allowed_size {ℓ} :
        {A : Type ℓ} (annotation : Option ℤ) (what : String) (size max_capacity : ℤ) (e : Error)
        (rest : ℤ → Prog A)
        → annotation ≡ some size
        → (not (eq_ℤ max_capacity (pos 0)) && ltb_ℤ max_capacity size) ≡ false
        → (or_fail annotation e >>= λ size. check_source_size what size max_capacity >> rest size)
          ≡ rest size
    unfolding check_source_size
    allowed_size annotation what size max_capacity e rest known within = rw (known, within) refl

    GoesOn-clone :
        (pvc : Pvc) (backing : Backing) (dest_pvc : Pvc) (capacity max_capacity size : ℤ)
        → parse_int (Dict.get pvc.annotations "subprovisioner.gitlab.io/capacity") ≡ some size
        → (not (eq_ℤ max_capacity (pos 0)) && ltb_ℤ max_capacity size) ≡ false
        → (state_of claim == "cloning") ≡ true
        → GoesOn
            (get_pvc pvc.namespace pvc.name)
            (ok claim)
            (clone_pvc lib rounds image backing dest_pvc capacity max_capacity pvc)
            (clone_taken pvc backing dest_pvc capacity size)
    unfolding clone_pvc generate_volume_image_path
    GoesOn-clone pvc backing dest_pvc capacity max_capacity size parsed within there =
        let read = get_pvc pvc.namespace pvc.name in
        let taken = clone_taken pvc backing dest_pvc capacity in
        let annotation = parse_int (Dict.get pvc.annotations "subprovisioner.gitlab.io/capacity") in
        let e = status unknown "failed to determine source volume capacity" in
        subst
          (λ rest.
            GoesOn read (ok claim)
              (clone_pvc lib rounds image backing dest_pvc capacity max_capacity pvc) rest)
          (allowed_size annotation "source volume capacity" size max_capacity e taken parsed within)
          (GoesOn-take read (ok claim) (set_pvc_state_to lib pvc.name pvc.namespace "cloning")
            (λ _. or_fail annotation e >>= λ size.
              check_source_size "source volume capacity" size max_capacity >> taken size)
            (PassesWith-take pvc.name pvc.namespace "cloning" there))

    Leads-clone :
        (pvc : Pvc) (backing : Backing) (dest_pvc : Pvc) (capacity size : ℤ)
        → Leads
            (λ job.
              (given : ℤ) × IsLarger size capacity given
              × Runs job
                  ("subprovisioner-create-" <> dest_pvc.uid)
                  image
                  (place_of backing)
                  (cloned_command dest_pvc.uid pvc given))
            (clone_taken pvc backing dest_pvc capacity size)
    unfolding run_creation_job create_job
    Leads-clone pvc backing dest_pvc capacity size = at_once (record {
      job = _;
      wanted = (
        at_least size capacity,
        at_least-IsLarger size capacity,
        creation-Runs image backing dest_pvc _,
      );
      namespace = _;
      make = _;
      next_call = refl;
    })

    -- A second snapshot or clone, which reads the volume in its state, creates its job.
    pub record Begins {namespace name : String} (second : Second namespace name) : Type 0 where
      pub rest : Prog (Unit {0})
      pub goes :
          GoesOn
            (get_pvc namespace name)
            (ok claim)
            (work lib rounds namespace name (worker_of image second))
            rest
      pub leads : Leads (Replaces image second) rest

    named {ℓ} :
        {A : Type ℓ} {namespace name : String} (pvc : Pvc) (m rest : Prog A)
        → pvc.namespace ≡ namespace
        → pvc.name ≡ name
        → GoesOn (get_pvc pvc.namespace pvc.name) (ok claim) m rest
        → GoesOn (get_pvc namespace name) (ok claim) m rest
    named {namespace} pvc m rest same_namespace same_name goes =
        subst (λ name. GoesOn (get_pvc namespace name) (ok claim) m rest) same_name
          (subst (λ n. GoesOn (get_pvc n pvc.name) (ok claim) m rest) same_namespace goes)

    pub second-Begins :
        {namespace name : String} (second : Second namespace name)
        → (state_of claim == purpose_state (purpose_of second)) ≡ true
        → Begins second
    second-Begins (snapshots pvc n m own_name own_namespace snapshot size parsed) there = record {
      rest = without_answer (snapshot_taken pvc own_name own_namespace snapshot size);
      goes = named pvc _ _ n m (
          GoesOn-bind _ _ _ _ _
            (GoesOn-snapshot pvc own_name own_namespace snapshot size parsed there));
      leads = Leads-snapshot pvc own_name own_namespace snapshot size;
    }
    second-Begins (clones pvc n m backing dest_pvc capacity max_capacity size parsed within) there =
        record {
          rest = clone_taken pvc backing dest_pvc capacity size;
          goes =
              named pvc _ _ n m
                (GoesOn-clone pvc backing dest_pvc capacity max_capacity size parsed within there);
          leads = Leads-clone pvc backing dest_pvc capacity size;
        }
