-- ===== src/Cluster/Staying.antt =====
-- A worker whose node was entered in the claim, and the steps of the others.
use mathlib.Core.Path.{subst, ap}
use subprovisioner.Base.{ℕ, String, ◌≡◌, ◌≢◌, sym, ◌∙◌, ◌∷◌, inl, inr}
use subprovisioner.Kube.Objects.{Pvc, MetaPatch}
use subprovisioner.Kube.Errors.{Result, ok, err}
use subprovisioner.Kube.Calls.{Call, Reply, Event, event, get_pvc, update_pvc, patch_pvc}
use subprovisioner.Kube.Contract.{Saw}
use subprovisioner.Kube.Prog.{Prog, call}
use subprovisioner.Kube.Libraries.{Libraries, IsLawful}
use subprovisioner.Common.NodeSet.Splitting.{IsName}
use subprovisioner.Common.Pvc.Nodes.{state_of}
use subprovisioner.Common.Pvc.Staging.{StageDone}
use subprovisioner.Common.Pvc.Exclusion.{Purpose, purpose_state, not_staged, purpose_not_staged}
use subprovisioner.Cluster.{
  Server, Stored, stored, Answers, Actor, System, replace, Step, act, outside, Reach, here, next,
}
use subprovisioner.Cluster.Roles.{Role, taker, stager, unstager}
use subprovisioner.Cluster.Listing.{Lists, other_state-Lists}
use subprovisioner.Cluster.Effects.{HeldBy, update_effect}
use subprovisioner.Cluster.Invariant.{Inv, replace-Saw, went_on}
use subprovisioner.Cluster.Invariant.Calls.{Reach-Inv}
use subprovisioner.Cluster.Invariant.Cases.{patch-Working}

module _ (lib : Libraries) (law : IsLawful lib) (namespace name : String) (role : ℕ → Role) (i : ℕ)
    (node : String) (proper : IsName node) (is_stager : role i ≡ stager node proper)
    (alone : (j : ℕ) → role j ≢ unstager node) where
  abbrev Done : Event → Type 0
  Done = StageDone namespace name node lib law

  -- If the worker's write was accepted, the claim lists its node.
  abbrev pub Stays : Server → (ℕ → Actor) → Type 0
  Stays server actors = Saw Done (actors i).history → Lists node server.claim

  abbrev Invariant : Server → (ℕ → Actor) → Type 0
  Invariant = Inv lib law namespace name role

  Stored-Lists : (s t : Server) (new : Pvc) → Stored s new t → Lists node new → Lists node t.claim
  Stored-Lists s t new (stored version unused p) listed =
      subst (λ (t : Server). Lists node t.claim) (sym p) listed

  module _ (s : System) (inv : Invariant s.server s.actors) (stays : Stays s.server s.actors)
      (j : ℕ) where
    quiet-Stays :
        (c : Call) (k : Reply c → Prog (Unit {0})) (r : Reply c) (t : Server)
        → ¬ Done (event c r)
        → t ≡ s.server
        → Stays t (
            replace s.actors j
              (record { history = event c r ∷ (s.actors j).history; program = k r }))
    quiet-Stays c k r t quiet same seen =
        elim (replace-Saw Done s.actors j (event c r) (k r) i seen) [
          | inl before ↦ subst (λ (t : Server). Lists node t.claim) (sym same) (stays before)
          | inr (_, done) ↦ absurd (quiet done)
        ]

    updated-Stays :
        (n : String) (written : Pvc) (k : Result (Unit {0}) → Prog (Unit {0}))
        (r : Result (Unit {0})) (t : Server)
        → (s.actors j).program ≡ call (update_pvc n written) k
        → written.resource_version ≡ s.server.claim.resource_version
        → Stored s.server written t
        → Stays t (
            replace s.actors j (record {
              history = event (update_pvc n written) r ∷ (s.actors j).history;
              program = k r;
            }))
    updated-Stays n written k r t going match new seen =
        let allowed =
          (went_on lib law namespace name role s inv j (update_pvc n written) k r going).0 in
        let known =
          update_effect lib law namespace name s.server (role j) (s.actors j).history n written
            (inv.each j).fresh allowed match in
        Stored-Lists s.server t written new (
          known.4 node inv.consistent (alone j)
            (elim (replace-Saw Done s.actors j (event (update_pvc n written) r) (k r) i seen) [
              | inl before ↦ inl (stays before)
              | inr (same, _) ↦ inr (proper, ap role (sym same) ∙ is_stager)
            ]))

    patched-Stays :
        (n m : String) (patch : MetaPatch) (k : Result (Unit {0}) → Prog (Unit {0}))
        (r : Result (Unit {0})) (t : Server)
        → (s.actors j).program ≡ call (patch_pvc n m patch) k
        → Stays t (
            replace s.actors j (record {
              history = event (patch_pvc n m patch) r ∷ (s.actors j).history;
              program = k r;
            }))
    patched-Stays n m patch k r t going seen =
        let (purpose, takes, working, _) =
          patch-Working lib law namespace name n m patch (role j) (s.actors j).history
            (went_on lib law namespace name role s inv j (patch_pvc n m patch) k r going).0 in
        let held : HeldBy (taker purpose) s.server.claim =
          subst (λ role. HeldBy role s.server.claim) takes ((inv.each j).held working) in
        elim (replace-Saw Done s.actors j (event (patch_pvc n m patch) r) (k r) i seen) [
          | inl before ↦ absurd (
              other_state-Lists node s.server.claim inv.consistent
                (not_staged (state_of s.server.claim) (purpose_state purpose) held
                  (purpose_not_staged purpose))
                (stays before))
          | inr (_, done) ↦ elim done [ ]
        ]

    act-Stays :
        (c : Call) (k : Reply c → Prog (Unit {0})) (r : Reply c) (t : Server)
        → (s.actors j).program ≡ call c k
        → Answers s.server c r t
        → Stays t (
            replace s.actors j
              (record { history = event c r ∷ (s.actors j).history; program = k r }))
    act-Stays (get_pvc n m) k (ok pvc) t going (_, same) =
        quiet-Stays (get_pvc n m) k (ok pvc) t (λ d. d) same
    act-Stays (get_pvc n m) k (err e) t going same =
        quiet-Stays (get_pvc n m) k (err e) t (λ d. d) same
    act-Stays (update_pvc n written) k (ok x) t going (match, new) =
        updated-Stays n written k (ok x) t going match new
    act-Stays (update_pvc n written) k (err e) t going (inr (match, new)) =
        updated-Stays n written k (err e) t going match new
    act-Stays (update_pvc n written) k (err e) t going (inl same) =
        quiet-Stays (update_pvc n written) k (err e) t (λ d. d) same
    act-Stays (patch_pvc n m patch) k r t going answer = patched-Stays n m patch k r t going
    act-Stays c k r t going same = quiet-Stays c k r t (λ d. d) same

  Step-Stays :
      {s t : System}
      → Invariant s.server s.actors
      → Stays s.server s.actors
      → Step s t
      → Stays t.server t.actors
  Step-Stays {s} inv stays (act j c k r t going answer) =
      act-Stays s inv stays j c k r t going answer
  Step-Stays {s} inv stays (outside new t state nodes deleting kept) =
      λ seen. Stored-Lists s.server t new kept (rw nodes (stays seen))

  pub Reach-Stays :
      ((i j : ℕ) (purpose : Purpose) → role i ≡ taker purpose → role j ≡ taker purpose → i ≡ j)
      → {s t : System} → Invariant s.server s.actors
      → Stays s.server s.actors
      → Reach s t
      → Stays t.server t.actors
  Reach-Stays apart inv stays here = stays
  Reach-Stays apart inv stays (next run step) =
      Step-Stays (Reach-Inv lib law namespace name role apart inv run)
        (Reach-Stays apart inv stays run) step
