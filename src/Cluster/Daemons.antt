-- ===== src/Cluster/Daemons.antt =====
-- When a worker starts the storage daemon of a volume on a node.
use mathlib.Core.Path.{subst}
use subprovisioner.Base.{ℕ, String, ◌≡◌, ◌≢◌, true, eq_iff, contains}
use subprovisioner.Kube.Objects.{ReplicaSet}
use subprovisioner.Kube.Errors.{Result}
use subprovisioner.Kube.Calls.{create_replica_set}
use subprovisioner.Kube.Contract.{Meets, Saw}
use subprovisioner.Kube.Prog.{Prog, call}
use subprovisioner.Kube.Libraries.{Libraries, IsLawful}
use subprovisioner.Common.NodeSet.Splitting.{IsName}
use subprovisioner.Common.Pvc.Nodes.{state_of, nodes_of}
use subprovisioner.Common.Pvc.Staging.{StageDone}
use subprovisioner.Cluster.{System, Actor, Reach}
use subprovisioner.Cluster.Roles.{stager, unstager, RoleOrder, AnyEnd}
use subprovisioner.Cluster.Listing.{Lists-staged}
use subprovisioner.Cluster.Staying.{Reach-Stays}
use subprovisioner.Cluster.Workers.{Worker, role_of}
use subprovisioner.Cluster.Exclusive.{Apart, Start, start-Inv, end-Inv}

module _ (lib : Libraries) (law : IsLawful lib) (rounds : ℕ) (namespace name : String)
    (worker : ℕ → Worker namespace name) (apart : Apart worker) (s t : System)
    (start : Start lib law rounds namespace name worker s) (run : Reach s t) where
  -- Expansions, snapshots, clones, stagings, unstagings and deletions of one claim, at most one worker
  -- for each of the first three, from a consistent claim and no call made, however their calls interleave, for a
  -- node that no worker unstages: whenever the next call
  -- of the worker that stages the volume on that node creates a replica set, the claim is staged and
  -- lists the node.
  pub daemons_run_listed :
      (i : ℕ) (node : String) (proper : IsName node)
      → role_of (worker i) ≡ stager node proper
      → ((j : ℕ) → role_of (worker j) ≢ unstager node)
      → (n : String) (made : ReplicaSet) (k : Result (Unit {0}) → Prog (Unit {0}))
      → (t.actors i).program ≡ call (create_replica_set n made) k
      → (state_of t.server.claim ≡ "staged") × (contains (nodes_of t.server.claim) node ≡ true)
  unfolding Meets
  daemons_run_listed i node proper stages alone n made k next_call =
      let role = λ (i : ℕ). role_of (worker i) in
      let first = start-Inv lib law rounds namespace name worker apart s t start run in
      let last = end-Inv lib law rounds namespace name worker apart s t start run in
      let here =
        subst
          (Meets (RoleOrder lib law namespace name (role_of (worker i))) AnyEnd
            (t.actors i).history)
          next_call (last.each i).ordered in
      let entered : Saw (StageDone namespace name node lib law) (t.actors i).history =
        subst
          (λ role.
            RoleOrder lib law namespace name role (t.actors i).history (create_replica_set n made))
          stages here.0 in
      let not_begun : ¬ Saw (StageDone namespace name node lib law) (s.actors i).history = λ seen.
        subst (λ (a : Actor). Saw (StageDone namespace name node lib law) a.history) (start.begun i)
          seen in
      let listed =
        Reach-Stays lib law namespace name role i node proper stages alone apart first
          (λ seen. absurd (not_begun seen)) run entered in
      (
        (eq_iff (state_of t.server.claim) "staged").0
            (Lists-staged node t.server.claim last.consistent listed),
        listed,
      )
