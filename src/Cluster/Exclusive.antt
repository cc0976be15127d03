-- ===== src/Cluster/Exclusive.antt =====
-- Every run of the plugin's programs on one claim, whatever their interleaving.
use mathlib.Core.Path.{subst, ap}
use subprovisioner.Kube.Objects.{Job}
use subprovisioner.Kube.Errors.{Result}
use subprovisioner.Kube.Calls.{History, create_job}
use subprovisioner.Kube.Prog.{Prog, call}
use subprovisioner.Kube.Contract.{Meets}
use subprovisioner.Base.{ℕ, String, ◌≡◌, ◌≢◌, refl, sym, ◌∙◌, true, false, [], contains, eq_iff}
use subprovisioner.Kube.Libraries.{Libraries, IsLawful}
use subprovisioner.Common.Pvc.Nodes.{state_of, nodes_of}
use subprovisioner.Common.Pvc.Consistency.{IsConsistent}
use subprovisioner.Common.Pvc.Exclusion.{
  Purpose, purpose_state, not_staged, purpose_not_staged, contains_of_empty,
}
use subprovisioner.Cluster.{System, Reach}
use subprovisioner.Cluster.Roles.{
  Role, taker, stager, unstager, remover, Working, RoleOrder, AnyEnd,
}
use subprovisioner.Cluster.Effects.{HeldBy}
use subprovisioner.Cluster.Invariant.{Inv, ActorInv}
use subprovisioner.Cluster.Invariant.Calls.{Reach-Inv}
use subprovisioner.Cluster.Invariant.Cases.{HeldBy-unique, Working-taker}
use subprovisioner.Cluster.Workers.{Worker, role_of, work, work-RoleOrder}

-- Two workers do not take the volume for the same purpose.
abbrev pub Apart : {namespace name : String} → (ℕ → Worker namespace name) → Type 0
Apart worker =
    (i j : ℕ) (purpose : Purpose)
    → role_of (worker i) ≡ taker purpose
    → role_of (worker j) ≡ taker purpose
    → i ≡ j

module _ (lib : Libraries) (law : IsLawful lib) (rounds : ℕ) (namespace name : String)
    (worker : ℕ → Worker namespace name) where
  -- The claim is consistent, its version is a known one, and no worker has made a call.
  pub record Start (s : System) : Type 0 where
    pub consistent : IsConsistent s.server.claim
    pub current : contains s.server.used s.server.claim.resource_version ≡ true
    pub begun :
        (i : ℕ)
        → s.actors i ≡ record { history = []; program = work lib rounds namespace name (worker i) }

  -- The worker has taken the volume, or found it taken for its purpose, and has not freed it.
  abbrev pub IsBusy : System → ℕ → Type 0
  IsBusy s i = Working lib law namespace name (role_of (worker i)) (s.actors i).history

  -- What holds of the volume while worker `i` works on it.
  pub record Alone (s : System) (i : ℕ) : Type 0 where
    pub purpose : Purpose
    pub takes : role_of (worker i) ≡ taker purpose
    pub state : state_of s.server.claim ≡ purpose_state purpose
    pub unstaged : (node : String) → contains (nodes_of s.server.claim) node ≡ false
    pub alone : (j : ℕ) → IsBusy s j → i ≡ j

  module _ (apart : Apart worker) (s t : System) (start : Start s) (run : Reach s t) where
    not_begun : (role : Role) → Working lib law namespace name role [] → ⊥
    not_begun (taker purpose) working = working.0
    not_begun (stager _ _) working = working
    not_begun (unstager _) working = working
    not_begun remover working = working

    -- Every role but the monitor's creates jobs only while it works on the volume.
    job-Working :
        (role : Role) (h : History) (n : String) (job : Job)
        → role ≢ remover
        → RoleOrder lib law namespace name role h (create_job n job)
        → Working lib law namespace name role h
    job-Working (taker purpose) h n job other working = working
    job-Working (stager _ _) h n job other working = working
    job-Working (unstager _) h n job other working = working
    job-Working remover h n job other removable = absurd (other refl)

    Start-ActorInv :
        (i : ℕ) → ActorInv lib law namespace name (role_of (worker i)) s.server (s.actors i)
    Start-ActorInv i = rw (start.begun i) (record {
      ordered = work-RoleOrder lib rounds namespace name law (worker i);
      fresh = tt;
      held = λ working. absurd (not_begun (role_of (worker i)) working);
    })

    pub start-Inv : Inv lib law namespace name (λ i. role_of (worker i)) s.server s.actors
    start-Inv = record {
      consistent = start.consistent;
      current = start.current;
      each = Start-ActorInv;
    }

    pub end-Inv : Inv lib law namespace name (λ i. role_of (worker i)) t.server t.actors
    end-Inv =
        Reach-Inv lib law namespace name (λ i. role_of (worker i)) apart
          (record { consistent = start.consistent; current = start.current; each = Start-ActorInv })
          run

    -- Expansions, snapshots, clones, stagings, unstagings and deletions of one claim, at most one worker
    -- for each of the first three, from a consistent claim and no call made: however their calls interleave,
    -- with each other, with the server's conflicts and errors, and with changes of the claim's other
    -- fields, the claim stays consistent. It is staged just when it lists a node, and it lists only
    -- names.
    pub cluster-IsConsistent : IsConsistent t.server.claim
    cluster-IsConsistent = end-Inv.consistent

    busy_taker :
        (i : ℕ)
        → IsBusy t i
        → (purpose : Purpose) × (role_of (worker i) ≡ taker purpose)
          × HeldBy (taker purpose) t.server.claim
    busy_taker i busy =
        let (purpose, takes) =
          Working-taker lib law namespace name (role_of (worker i)) (t.actors i).history busy in
        (
          purpose,
          takes,
          subst (λ role. HeldBy role t.server.claim) takes ((end-Inv.each i).held busy),
        )

    -- Expansions, snapshots, clones, stagings, unstagings and deletions of one claim, at most one worker
    -- for each of the first three, from a consistent claim and no call made, however their calls interleave:
    -- while one has the volume (it took the volume, or found it
    -- taken for its purpose, and has not patched the claim since), the claim is in the state of its
    -- purpose and lists no node, and no other worker has the volume.
    busy-Alone : (i : ℕ) → IsBusy t i → Alone t i
    busy-Alone i busy =
        let (purpose, takes, held) = busy_taker i busy in
        let pvc = t.server.claim in
        record {
          purpose = purpose;
          takes = takes;
          state = (eq_iff (state_of pvc) (purpose_state purpose)).0 held;
          unstaged = λ node. contains_of_empty (nodes_of pvc) node (
              sym end-Inv.consistent.staged_nodes
              ∙ not_staged (state_of pvc) (purpose_state purpose) held
                  (purpose_not_staged purpose));
          alone = λ j busy_too.
              let (other, takes_too, held_too) = busy_taker j busy_too in
              apart i j purpose takes
                (takes_too ∙ ap taker (HeldBy-unique other purpose pvc held_too held));
        }

    -- Expansions, snapshots, clones, stagings, unstagings and deletions of one claim, at most one worker
    -- for each of the first three, from a consistent claim and no call made, however their calls interleave:
    -- whenever the next call of a worker other than the monitor's creates a job, the claim is
    -- in the state of its purpose and lists no node, and no other worker has the volume.
    pub jobs_run-Alone :
        (i : ℕ) (n : String) (job : Job) (k : Result (Unit {0}) → Prog (Unit {0}))
        → role_of (worker i) ≢ remover
        → (t.actors i).program ≡ call (create_job n job) k
        → Alone t i
    unfolding Meets
    jobs_run-Alone i n job k other next_call =
        let here =
          subst
            (Meets (RoleOrder lib law namespace name (role_of (worker i))) AnyEnd
              (t.actors i).history)
            next_call (end-Inv.each i).ordered in
        busy-Alone i (job-Working (role_of (worker i)) (t.actors i).history n job other here.0)
