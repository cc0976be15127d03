-- ===== src/Tests/Cluster.antt =====
-- Two workers on the volume of the fixtures: one takes it, the other comes too late or too early.
use mathlib.Core.Bool.{false≢true}
use subprovisioner.Base.{
  false, sym, ◌∙◌, ap, eq_iff, ◌==◌, String, ◌≡◌, ◌≢◌, true, contains, arith, ℕ, zero, suc, refl,
  [], ◌∷◌, inl,
}
use subprovisioner.Base.Int.{pos}
use native.Mathlib.Decide.{ℕ_discrete}
use subprovisioner.Kube.Objects.{VolumeSnapshot}
use subprovisioner.Common.Job.{create_job, job_of}
use subprovisioner.Node.Stage.{node_stage_volume}
use subprovisioner.Common.Pvc.{
  staged_on, stage_refusal, enter_staged, stage_pvc_attempt, stage_pvc_on_node, with_state,
  leave_state, set_pvc_state_attempt, set_pvc_state_to,
}
use subprovisioner.Common.Pvc.Nodes.{state_of, nodes_of}
use subprovisioner.Common.ReplicaSet.{create_replica_set}
use subprovisioner.Cluster.Daemons.{daemons_run_listed}
use subprovisioner.Kube.Errors.{ok}
use subprovisioner.Kube.Calls.{get_pvc, update_pvc}
use subprovisioner.Kube.Libraries.{or_again}
use subprovisioner.Common.Pvc.Consistency.{IsConsistent}
use subprovisioner.Common.Pvc.Exclusion.{expanding}
use subprovisioner.Controller.Snapshot.{backing_of, snapshot_pvc}
use subprovisioner.Controller.Expand.{expansion_job, expand_image}
use subprovisioner.Cluster.{System, Reach, here, next, act, stored}
use subprovisioner.Cluster.Roles.{Role, unstager, remover, taker}
use subprovisioner.Cluster.Workers.{
  Worker, expander, snapshotter, attacher, bystander, role_of, work,
}
use subprovisioner.Cluster.Exclusive.{
  Apart, Start, IsBusy, Alone, cluster-IsConsistent, jobs_run-Alone,
}
use subprovisioner.Cluster.Refining.{Follows, cluster_refines}
use subprovisioner.Cluster.Changes.{by}
use subprovisioner.Common.Pvc.Abstract.{view}
use subprovisioner.Cluster.Beginning.{Second, snapshots}
use subprovisioner.Strconv.{parse_int}
use subprovisioner.Cluster.Joining.{Joined, not_taker, same_purpose_joins}
use subprovisioner.Tests.Fixtures.{libraries, libraries-IsLawful, idle_pvc, snapshot, stage_request}
use subprovisioner.Tests.Claims.{idle_pvc-IsConsistent}

abbrev expansion_and_staging : ℕ → Worker "default" "data"
expansion_and_staging zero = expander idle_pvc refl refl "img" (pos 16384)
expansion_and_staging (suc zero) =
    attacher "img" "n1" stage_request refl refl (refl, (refl, (refl, tt)))
expansion_and_staging (suc (suc _)) = bystander

expansion_and_staging-Apart : Apart expansion_and_staging
expansion_and_staging-Apart zero zero purpose _ _ = refl
expansion_and_staging-Apart zero (suc zero) purpose _ e =
    absurd (not_taker (role_of (expansion_and_staging 1)) tt purpose e)
expansion_and_staging-Apart zero (suc (suc _)) purpose _ e =
    absurd (not_taker (unstager "") tt purpose e)
expansion_and_staging-Apart (suc zero) j purpose e _ =
    absurd (not_taker (role_of (expansion_and_staging 1)) tt purpose e)
expansion_and_staging-Apart (suc (suc _)) j purpose e _ =
    absurd (not_taker (unstager "") tt purpose e)

abbrev before : System
before = record {
  server = record { claim = idle_pvc; used = "7" ∷ [] };
  actors = λ i. record {
    history = [];
    program = work libraries 3 "default" "data" (expansion_and_staging i);
  };
}

before-Start : Start libraries libraries-IsLawful 3 "default" "data" expansion_and_staging before
before-Start = record { consistent = idle_pvc-IsConsistent; current = refl; begun = λ i. refl }

-- The expansion reads the claim and takes the volume.
unfoldable taking :
    (t : System) × Reach before t
    × IsBusy libraries libraries-IsLawful 3 "default" "data" expansion_and_staging t 0
unfolding expand_image set_pvc_state_to set_pvc_state_attempt leave_state or_again ℕ_discrete
taking = (
  _,
  next
      (next here (act 0 (get_pvc "default" "data") _ (ok idle_pvc) before.server refl (refl, refl)))
      (act 0 (update_pvc "default" (with_state idle_pvc "expanding")) _ (ok tt) _ refl
        (refl, stored "8" refl refl)),
  (inl (refl, refl), tt),
)

cluster-IsConsistent_example : IsConsistent (taking.0).server.claim
cluster-IsConsistent_example =
    cluster-IsConsistent libraries libraries-IsLawful 3 "default" "data" expansion_and_staging
      expansion_and_staging-Apart before taking.0 before-Start taking.1

cluster_refines_example :
    Follows (by (taker expanding)) (view idle_pvc) (view (with_state idle_pvc "expanding"))
unfolding expand_image set_pvc_state_to set_pvc_state_attempt leave_state or_again ℕ_discrete
cluster_refines_example =
    cluster_refines libraries libraries-IsLawful 3 "default" "data" expansion_and_staging
      expansion_and_staging-Apart before before-Start _ _
      (next here (act 0 (get_pvc "default" "data") _ (ok idle_pvc) before.server refl (refl, refl)))
      (act 0 (update_pvc "default" (with_state idle_pvc "expanding")) _ (ok tt) _ refl
        (refl, stored "8" refl refl))

jobs_run-Alone_example :
    Alone libraries libraries-IsLawful 3 "default" "data" expansion_and_staging taking.0 0
unfolding taking expand_image set_pvc_state_to set_pvc_state_attempt leave_state or_again create_job
    job_of expansion_job backing_of ℕ_discrete
jobs_run-Alone_example =
    jobs_run-Alone libraries libraries-IsLawful 3 "default" "data" expansion_and_staging
      expansion_and_staging-Apart before taking.0 before-Start taking.1 0 "storage"
      (job_of (expansion_job "img" idle_pvc (pos 16384))) _
      (λ e. not_taker remover tt expanding (sym e)) refl

abbrev later_snapshot : VolumeSnapshot
later_snapshot = record snapshot { name = "again"; uid = "9012" }

abbrev two_snapshots : ℕ → Worker "default" "data"
two_snapshots zero = snapshotter idle_pvc refl refl "img" "before" "default" snapshot
two_snapshots (suc zero) = snapshotter idle_pvc refl refl "img" "again" "default" later_snapshot
two_snapshots (suc (suc _)) = bystander

abbrev no_snapshot : System
no_snapshot = record {
  server = record { claim = idle_pvc; used = "7" ∷ [] };
  actors =
      λ i. record { history = []; program = work libraries 3 "default" "data" (two_snapshots i) };
}

-- The first of two snapshots has taken the volume.
unfoldable first_snapshot : (t : System) × Reach no_snapshot t
unfolding snapshot_pvc set_pvc_state_to set_pvc_state_attempt leave_state or_again ℕ_discrete
first_snapshot = (
  _,
  next
      (next here
        (act 0 (get_pvc "default" "data") _ (ok idle_pvc) no_snapshot.server refl (refl, refl)))
      (act 0 (update_pvc "default" (with_state idle_pvc "snapshotting")) _ (ok tt) _ refl
        (refl, stored "8" refl refl)),
)

abbrev again : Second "default" "data"
again =
    snapshots idle_pvc refl refl "again" "default" later_snapshot (pos 8192)
      (unfold parse_int in refl)

same_purpose_joins_example :
    Joined libraries libraries-IsLawful 3 "default" "data" "img" two_snapshots first_snapshot.0 0 1
      again
unfolding first_snapshot snapshot_pvc set_pvc_state_to set_pvc_state_attempt leave_state or_again
    ℕ_discrete
same_purpose_joins_example =
    same_purpose_joins libraries libraries-IsLawful 3 "default" "data" "img" two_snapshots
      first_snapshot.0 0 1 again (omega arith) refl refl refl (inl (refl, refl), tt)

-- The other worker's run: it stages the volume before the expansion takes it.
unfoldable staging : (t : System) × Reach before t
unfolding node_stage_volume stage_pvc_on_node stage_pvc_attempt enter_staged stage_refusal or_again
    ℕ_discrete staged_on
staging = (
  _,
  next
      (next here (act 1 (get_pvc "default" "data") _ (ok idle_pvc) before.server refl (refl, refl)))
      (act 1 (update_pvc "default" (staged_on libraries "n1" idle_pvc)) _ (ok tt) _ refl
        (refl, stored "8" refl refl)),
)

abbrev unstaged_node : Role → String
unstaged_node (unstager node) = node
unstaged_node _ = "other"

other_node : (role : Role) → (unstaged_node role == "n1") ≡ false → role ≢ unstager "n1"
other_node role differs same = false≢true (sym differs ∙ (eq_iff _ _).1 (ap unstaged_node same))

nobody_unstages : (j : ℕ) → role_of (expansion_and_staging j) ≢ unstager "n1"
nobody_unstages zero = other_node _ refl
nobody_unstages (suc zero) = other_node _ refl
nobody_unstages (suc (suc _)) = other_node _ refl

daemons_run_listed_example :
    (state_of (staging.0).server.claim ≡ "staged")
    × (contains (nodes_of (staging.0).server.claim) "n1" ≡ true)
unfolding staging node_stage_volume stage_pvc_on_node stage_pvc_attempt enter_staged stage_refusal
    or_again ℕ_discrete staged_on create_replica_set
daemons_run_listed_example =
    daemons_run_listed libraries libraries-IsLawful 3 "default" "data" expansion_and_staging
      expansion_and_staging-Apart before staging.0 before-Start staging.1 1 "n1"
      (refl, (refl, (refl, tt))) refl nobody_unstages _ _ _ refl
