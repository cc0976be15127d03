-- ===== src/Cluster/Workers.antt =====
-- The programs that work on one claim, each in its role.
use mathlib.Core.Path.{subst}
use subprovisioner.Base.{ℕ, String, ◌≡◌, [], ◌∷◌}
use subprovisioner.Base.Int.{ℤ}
use subprovisioner.Base.Dict
use subprovisioner.Kube.Objects.{Pvc, VolumeSnapshot}
use subprovisioner.Kube.Errors.{ok}
use subprovisioner.Kube.Calls.{
  create_replica_set, event, Call, History, get_pvc, update_pvc, patch_pvc,
  create_job as create_job_call,
}
use subprovisioner.Kube.Contract.{Meets-widen, Outcome, Meets, Meets-weaken}
use subprovisioner.Kube.Prog.{Prog, unfinished, call, ret, fail, ◌>>=◌}
use subprovisioner.Kube.Libraries.{Libraries, IsLawful}
use subprovisioner.Common.NodeSet.Splitting.{IsName}
use subprovisioner.Common.Pvc.{unstage_pvc_from_node}
use subprovisioner.Common.Pvc.Staging.{UnstageOrder, Meets-unstage_pvc_from_node}
use subprovisioner.Common.Pvc.Exclusion.{expanding, cloning, snapshotting}
use subprovisioner.Controller.Create.{Backing, clone_pvc}
use subprovisioner.Controller.Expand.{expand_image}
use subprovisioner.Controller.Snapshot.{snapshot_pvc}
use subprovisioner.Controller.Monitor.{process_named}
use subprovisioner.Cluster.Roles.{Role, taker, stager, unstager, remover, RoleOrder, AnyEnd}
use subprovisioner.Cluster.Removing.{Meets-process_named}
use subprovisioner.Cluster.Taking.Programs.{Meets-expand, Meets-snapshot, Meets-clone}
use subprovisioner.Node.Stage.{NodeStageVolumeRequest, node_stage_volume}
use subprovisioner.Node.Stage.Order.{StagingOrder, node_stage_volume_order}

-- A program about a claim that was found by its name and namespace. The monitor's is what
-- `processNextItem` does with a key that stands for that name and namespace.
pub data Worker (namespace name : String) : Type 0 where
  expander :
      (pvc : Pvc)
      → pvc.namespace ≡ namespace
      → pvc.name ≡ name
      → (image : String) (capacity : ℤ) → Worker namespace name
  snapshotter :
      (pvc : Pvc)
      → pvc.namespace ≡ namespace
      → pvc.name ≡ name
      → (image snapshot_name snapshot_namespace : String) (snapshot : VolumeSnapshot)
      → Worker namespace name
  cloner :
      (pvc : Pvc)
      → pvc.namespace ≡ namespace
      → pvc.name ≡ name
      → (image : String) (backing : Backing) (dest_pvc : Pvc) (capacity max_capacity : ℤ)
      → Worker namespace name
  attacher :
      (image node : String) (req : NodeStageVolumeRequest)
      → Dict.get req.volume_context "pvcNamespace" ≡ namespace
      → Dict.get req.volume_context "pvcName" ≡ name
      → IsName node
      → Worker namespace name
  detacher : (node : String) → Worker namespace name
  deleter : (image queue_key : String) → Worker namespace name
  bystander : Worker namespace name

abbrev pub role_of : {namespace name : String} → Worker namespace name → Role
role_of (expander _ _ _ _ _) = taker expanding
role_of (snapshotter _ _ _ _ _ _ _) = taker snapshotting
role_of (cloner _ _ _ _ _ _ _ _) = taker cloning
role_of (attacher _ node _ _ _ proper) = stager node proper
role_of (detacher node) = unstager node
role_of (deleter _ _) = remover
role_of bystander = unstager ""

-- A program with its answer left out.
abbrev pub without_answer {ℓ} : {A : Type ℓ} → Prog A → Prog (Unit {0})
without_answer m = m >>= λ _. ret tt

answerless {ℓ} :
    {A : Type ℓ} (Allowed : History → Call → Type 0) (h : History) (m : Prog A)
    → Meets Allowed AnyEnd h m
    → Meets Allowed AnyEnd h (without_answer m)
unfolding Meets
answerless Allowed h (ret a) first = tt
answerless Allowed h (fail e) first = tt
answerless Allowed h unfinished first = tt
answerless Allowed h (call c k) (allowed, first) =
    (allowed, λ r. answerless Allowed (event c r ∷ h) (k r) (first r))

any_end {ℓ} :
    {A : Type ℓ} (Allowed : History → Call → Type 0) (Post : History → Outcome A → Type 0)
    (h : History) (m : Prog A)
    → Meets Allowed Post h m
    → Meets Allowed AnyEnd h m
any_end Allowed Post h m first = Meets-weaken Allowed Post AnyEnd h m first (λ _ _ _. tt)

module _ (lib : Libraries) (rounds : ℕ) (namespace name : String) where
  -- The worker's program, with its answer left out.
  abbrev pub work : Worker namespace name → Prog (Unit {0})
  work (expander pvc _ _ image capacity) =
      without_answer (expand_image lib rounds image pvc capacity)
  work (snapshotter pvc _ _ image snapshot_name snapshot_namespace snapshot) =
      without_answer (snapshot_pvc lib rounds image snapshot_name snapshot_namespace snapshot pvc)
  work (cloner pvc _ _ image backing dest_pvc capacity max_capacity) =
      clone_pvc lib rounds image backing dest_pvc capacity max_capacity pvc
  work (attacher image node req _ _ _) = node_stage_volume lib rounds image node req
  work (detacher node) = unstage_pvc_from_node lib name namespace node
  work (deleter image queue_key) = process_named lib rounds image queue_key (ok (namespace, name))
  work bystander = ret tt

  module _ (law : IsLawful lib) where
    abbrev Keeps : Role → String → String → Prog (Unit {0}) → Type 0
    Keeps role n m program = Meets (RoleOrder lib law n m role) AnyEnd [] program

    stage_within :
        (image node : String) (proper : IsName node) (req : NodeStageVolumeRequest) (h : History)
        (c : Call)
        → StagingOrder image node lib law rounds req h c
        → RoleOrder lib law
            (Dict.get req.volume_context "pvcNamespace")
            (Dict.get req.volume_context "pvcName")
            (stager node proper)
            h
            c
    stage_within image node proper req h (get_pvc _ _) allowed = allowed
    stage_within image node proper req h (update_pvc _ _) allowed = allowed
    stage_within image node proper req h (patch_pvc _ _ _) allowed = elim allowed [ ]
    stage_within image node proper req h (create_job_call _ _) allowed = elim allowed [ ]
    stage_within image node proper req h (create_replica_set _ _) allowed = allowed.0
    stage_within image node proper req h _ allowed = tt

    unstage_within :
        (node : String) (h : History) (c : Call)
        → Unit {0}
        → UnstageOrder namespace name node lib law h c
        → RoleOrder lib law namespace name (unstager node) h c
    unstage_within node h (get_pvc _ _) _ allowed = allowed
    unstage_within node h (update_pvc _ _) _ allowed = allowed
    unstage_within node h (patch_pvc _ _ _) _ allowed = elim allowed [ ]
    unstage_within node h (create_job_call _ _) _ allowed = elim allowed [ ]
    unstage_within node h _ _ allowed = tt

    moved :
        {n m : String}
        → n ≡ namespace
        → m ≡ name
        → (role : Role) (program : Prog (Unit {0})) → Keeps role n m program
        → Keeps role namespace name program
    moved {n} {m} same_namespace same_name role program keeps =
        subst (λ m. Keeps role namespace m program) same_name
          (subst (λ n. Keeps role n m program) same_namespace keeps)

    -- Each worker keeps to its role.
    pub work-RoleOrder :
        (worker : Worker namespace name)
        → Meets (RoleOrder lib law namespace name (role_of worker)) AnyEnd [] (work worker)
    work-RoleOrder (expander pvc n m image capacity) =
        moved n m (taker expanding) _
          (answerless _ [] _ (Meets-expand lib law rounds pvc image capacity))
    work-RoleOrder (snapshotter pvc n m image snapshot_name snapshot_namespace snapshot) =
        moved n m (taker snapshotting) _ (
          answerless _ [] _
            (Meets-snapshot lib law rounds pvc image snapshot_name snapshot_namespace snapshot))
    work-RoleOrder (cloner pvc n m image backing dest_pvc capacity max_capacity) =
        moved n m (taker cloning) _
          (Meets-clone lib law rounds pvc image backing dest_pvc capacity max_capacity)
    work-RoleOrder (attacher image node req n m proper) = moved n m (stager node proper) _ (
        any_end _ _ [] _ (
          Meets-widen _ _ (stage_within image node proper req) _ [] _
            (node_stage_volume_order image node lib law rounds req)))
    work-RoleOrder (detacher node) = any_end _ _ [] _ (
        Meets-unstage_pvc_from_node namespace name node lib law
          (RoleOrder lib law namespace name (unstager node)) (λ _. Unit {0}) (λ _ _ _. tt)
          (unstage_within node) [] tt)
    work-RoleOrder (deleter image queue_key) =
        Meets-process_named lib law rounds namespace name image queue_key
    work-RoleOrder bystander = unfold Meets in tt
