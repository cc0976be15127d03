-- ===== src/Cluster/Deleting.antt =====
-- The monitor's deletion of a volume, among the other programs on its claim.
use mathlib.Core.Bool.{false≢true}
use mathlib.Core.Path.{subst}
use subprovisioner.Base.{ℕ, String, ◌≡◌, ◌≢◌, sym, ◌∙◌, false, contains, []}
use subprovisioner.Kube.Objects.{Job, ReplicaSet}
use subprovisioner.Kube.Errors.{Result}
use subprovisioner.Kube.Calls.{create_job, create_replica_set}
use subprovisioner.Kube.Contract.{Meets, Saw}
use subprovisioner.Kube.Prog.{Prog, call}
use subprovisioner.Kube.Libraries.{Libraries, IsLawful}
use subprovisioner.Common.NodeSet.Splitting.{IsName}
use subprovisioner.Common.Pvc.Nodes.{nodes_of}
use subprovisioner.Cluster.{System, Reach, here, next}
use subprovisioner.Cluster.Roles.{stager, unstager, remover, Removable, RoleOrder, AnyEnd}
use subprovisioner.Cluster.Sealed.{IsDeleting, NoNodes-lists}
use subprovisioner.Cluster.Sealing.{Sealing, Reach-Sealing}
use subprovisioner.Cluster.Daemons.{daemons_run_listed}
use subprovisioner.Cluster.Workers.{Worker, role_of}
use subprovisioner.Cluster.Exclusive.{Apart, Start, end-Inv}

Reach-trans : {s m t : System} → Reach s m → Reach m t → Reach s t
Reach-trans first here = first
Reach-trans first (next run step) = next (Reach-trans first run) step

-- The claim is being deleted and is listed as staged on no node, and no worker is about to start a
-- storage daemon for the volume on a node that no worker unstages.
pub record Unused {namespace name : String} (worker : ℕ → Worker namespace name) (t : System)
    : Type 0 where
  pub deleting : IsDeleting t.server.claim
  pub unstaged : (node : String) → contains (nodes_of t.server.claim) node ≡ false
  pub without_daemons :
      (i : ℕ) (node : String) (proper : IsName node)
      → role_of (worker i) ≡ stager node proper
      → ((j : ℕ) → role_of (worker j) ≢ unstager node)
      → (n : String) (made : ReplicaSet) (k : Result (Unit {0}) → Prog (Unit {0}))
      → (t.actors i).program ≢ call (create_replica_set n made) k

module _ (lib : Libraries) (law : IsLawful lib) (rounds : ℕ) (namespace name : String)
    (worker : ℕ → Worker namespace name) (apart : Apart worker) (s m t : System)
    (start : Start lib law rounds namespace name worker s) (before : Reach s m)
    (deleting : IsDeleting m.server.claim) (i : ℕ) (begun : (m.actors i).history ≡ [])
    (run : Reach m t) where
  sealed : Sealing lib law namespace name (λ i. role_of (worker i)) i t
  sealed =
      Reach-Sealing lib law namespace name (λ i. role_of (worker i)) i apart
        (end-Inv lib law rounds namespace name worker apart s m start before)
        (record {
          deleting = deleting;
          removable = λ seen. elim (subst (Saw Removable) begun seen) [ ];
        })
        run

  whole : Reach s t
  whole = Reach-trans before run

  read-Unused : Saw Removable (t.actors i).history → Unused worker t
  read-Unused seen =
      let unlisted = λ (node : String). NoNodes-lists t.server.claim node (sealed.removable seen) in
      record {
        deleting = sealed.deleting;
        unstaged = unlisted;
        without_daemons = λ j node proper stages alone n made k next_call. false≢true (
            sym (unlisted node)
            ∙ (daemons_run_listed lib law rounds namespace name worker apart s t start whole j node
                proper stages alone n made k next_call).1);
      }

  -- Expansions, snapshots, clones, stagings, unstagings and deletions of one claim, at most one worker
  -- for each of the first three, from a consistent claim and no call made, however their calls
  -- interleave. Take a point at which the claim is being deleted and the monitor's worker has not
  -- begun. At every later point at which that worker has read the claim without nodes, the claim is
  -- being deleted and lists no node, and no worker is about to start a storage daemon on a node that no
  -- worker unstages; and the worker creates jobs only at such points.
  pub deletions_run_unstaged :
      role_of (worker i) ≡ remover
      → (Saw Removable (t.actors i).history → Unused worker t)
        × ((n : String) (job : Job) (k : Result (Unit {0}) → Prog (Unit {0}))
            → (t.actors i).program ≡ call (create_job n job) k
            → Unused worker t)
  unfolding Meets
  deletions_run_unstaged removes = (
    read-Unused,
    λ n job k next_call.
        let allowed =
          subst
            (Meets (RoleOrder lib law namespace name (role_of (worker i))) AnyEnd
              (t.actors i).history)
            next_call
            ((end-Inv lib law rounds namespace name worker apart s t start whole).each i).ordered in
        read-Unused (
          subst
            (λ role. RoleOrder lib law namespace name role (t.actors i).history (create_job n job))
            removes allowed.0),
  )
