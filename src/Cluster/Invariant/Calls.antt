-- ===== src/Cluster/Invariant/Calls.antt =====
-- A call of one actor, by the kind of the call, and every run of the cluster.
use mathlib.Core.Path.{subst, ap}
use subprovisioner.Base.{ℕ, String, ◌≡◌, sym, ◌∙◌, true, ◌∷◌, inl, inr, contains}
use subprovisioner.Kube.Objects.{Pvc, MetaPatch}
use subprovisioner.Kube.Errors.{Result, ok, err}
use subprovisioner.Kube.Calls.{Call, Reply, event, History, get_pvc, update_pvc, patch_pvc}
use subprovisioner.Kube.Prog.{Prog, call}
use subprovisioner.Kube.Libraries.{Libraries, IsLawful}
use subprovisioner.Common.Pvc.Exclusion.{Purpose, Write-IsConsistent}
use subprovisioner.Cluster.Invariant.Cases.{
  read-HeldBy, quiet-HeldBy, HeldBy-mono, HeldBy-unique, patch-Working, patched-not-Working,
  Working-taker,
}
use subprovisioner.Cluster.{
  Server, IsMerged, Stored, Answers, Actor, System, replace, Step, act, outside, Reach, here, next,
}
use subprovisioner.Cluster.Roles.{Role, taker}
use subprovisioner.Cluster.Effects.{HeldBy, update_effect, patch_effect}
use subprovisioner.Cluster.Invariant.{Inv, same_server, Stored-server, went_on, outside-Inv}

module _ (lib : Libraries) (law : IsLawful lib) (namespace name : String) (role : ℕ → Role) where
  module _
      (apart : (i j : ℕ) (purpose : Purpose)
        → role i ≡ taker purpose
        → role j ≡ taker purpose
        → i ≡ j)
      (s : System) (inv : Inv lib law namespace name role s.server s.actors) (i : ℕ) where
    abbrev so_far : History
    so_far = (s.actors i).history

    -- The cluster after a call.
    abbrev then_at : (c : Call) → (Reply c → Prog (Unit {0})) → Reply c → ℕ → Actor
    then_at c k r = replace s.actors i (record { history = event c r ∷ so_far; program = k r })

    get-Inv :
        (n m : String) (k : Result Pvc → Prog (Unit {0})) (r : Result Pvc) (t : Server)
        → (s.actors i).program ≡ call (get_pvc n m) k
        → Answers s.server (get_pvc n m) r t
        → Inv lib law namespace name role t (then_at (get_pvc n m) k r)
    get-Inv n m k (ok pvc) t going (same, still) =
        subst (λ t. Inv lib law namespace name role t (then_at (get_pvc n m) k (ok pvc)))
          (sym still)
          (same_server lib law namespace name role s inv i (get_pvc n m) k (ok pvc) going
            (
              subst (λ p. contains s.server.used p.resource_version ≡ true) (sym same) inv.current,
              λ _. same,
            )
            (read-HeldBy lib law namespace name n m pvc s.server.claim (role i) so_far same
              (inv.each i).held))
    get-Inv n m k (err e) t going still =
        subst (λ t. Inv lib law namespace name role t (then_at (get_pvc n m) k (err e))) (sym still)
          (same_server lib law namespace name role s inv i (get_pvc n m) k (err e) going tt (
            quiet-HeldBy lib law namespace name (event (get_pvc n m) (err e)) s.server.claim
              (role i) so_far (λ _ claimed. claimed) (λ u. u) (inv.each i).held))

    update-Stored :
        (n : String) (written : Pvc) (k : Result (Unit {0}) → Prog (Unit {0}))
        (r : Result (Unit {0})) (t : Server)
        → (s.actors i).program ≡ call (update_pvc n written) k
        → written.resource_version ≡ s.server.claim.resource_version
        → Stored s.server written t
        → Inv lib law namespace name role t (then_at (update_pvc n written) k r)
    update-Stored n written k r t going match new =
        let allowed =
          (went_on lib law namespace name role s inv i (update_pvc n written) k r going).0 in
        let known =
          update_effect lib law namespace name s.server (role i) so_far n written (inv.each i).fresh
            allowed match in
        Stored-server lib law namespace name role s inv i (update_pvc n written) k r going written t
          new (Write-IsConsistent lib law known.0 inv.consistent) (λ _. tt) (λ _. known.3)
          (λ j _ working.
            HeldBy-mono (role j) s.server.claim written known.2 ((inv.each j).held working))

    update-Inv :
        (n : String) (written : Pvc) (k : Result (Unit {0}) → Prog (Unit {0}))
        (r : Result (Unit {0})) (t : Server)
        → (s.actors i).program ≡ call (update_pvc n written) k
        → Answers s.server (update_pvc n written) r t
        → Inv lib law namespace name role t (then_at (update_pvc n written) k r)
    update-Inv n written k (ok x) t going (match, new) =
        update-Stored n written k (ok x) t going match new
    update-Inv n written k (err e) t going (inr (match, new)) =
        update-Stored n written k (err e) t going match new
    update-Inv n written k (err e) t going (inl still) =
        subst (λ t. Inv lib law namespace name role t (then_at (update_pvc n written) k (err e)))
          (sym still)
          (same_server lib law namespace name role s inv i (update_pvc n written) k (err e) going tt
            (quiet-HeldBy lib law namespace name (event (update_pvc n written) (err e))
              s.server.claim (role i) so_far (λ _ claimed. claimed) (λ u. u) (inv.each i).held))

    patch-Stored :
        (n m : String) (patch : MetaPatch) (k : Result (Unit {0}) → Prog (Unit {0}))
        (r : Result (Unit {0})) (new : Pvc) (t : Server)
        → (s.actors i).program ≡ call (patch_pvc n m patch) k
        → IsMerged s.server.claim patch new
        → Stored s.server new t
        → Inv lib law namespace name role t (then_at (patch_pvc n m patch) k r)
    patch-Stored n m patch k r new t going merged new_server =
        let (purpose, is_taker, working, idle) =
          patch-Working lib law namespace name n m patch (role i) so_far
            (went_on lib law namespace name role s inv i (patch_pvc n m patch) k r going).0 in
        let held : HeldBy (taker purpose) s.server.claim =
          subst (λ role. HeldBy role s.server.claim) is_taker ((inv.each i).held working) in
        Stored-server lib law namespace name role s inv i (patch_pvc n m patch) k r going new t
          new_server
          (patch_effect lib law namespace name s.server.claim new purpose patch merged idle held
            inv.consistent)
          (λ _. tt)
          (λ working.
            absurd (patched-not-Working lib law namespace name n m patch r (role i) so_far working))
          (λ j differs works.
            let (other, is_other) =
              Working-taker lib law namespace name (role j) (s.actors j).history works in
            let holds : HeldBy (taker other) s.server.claim =
              subst (λ role. HeldBy role s.server.claim) is_other ((inv.each j).held works) in
            let same = HeldBy-unique purpose other s.server.claim held holds in
            absurd (differs (apart i j purpose is_taker (is_other ∙ ap taker (sym same)))))

    patch-Inv :
        (n m : String) (patch : MetaPatch) (k : Result (Unit {0}) → Prog (Unit {0}))
        (r : Result (Unit {0})) (t : Server)
        → (s.actors i).program ≡ call (patch_pvc n m patch) k
        → Answers s.server (patch_pvc n m patch) r t
        → Inv lib law namespace name role t (then_at (patch_pvc n m patch) k r)
    patch-Inv n m patch k (ok x) t going (new, merged, kept) =
        patch-Stored n m patch k (ok x) new t going merged kept
    patch-Inv n m patch k (err e) t going (inr (new, merged, kept)) =
        patch-Stored n m patch k (err e) new t going merged kept
    patch-Inv n m patch k (err e) t going (inl still) =
        subst (λ t. Inv lib law namespace name role t (then_at (patch_pvc n m patch) k (err e)))
          (sym still)
          (same_server lib law namespace name role s inv i (patch_pvc n m patch) k (err e) going tt
            (λ working. absurd (
              patched-not-Working lib law namespace name n m patch (err e) (role i) so_far
                working)))

    act-Inv :
        (c : Call) (k : Reply c → Prog (Unit {0})) (r : Reply c) (t : Server)
        → (s.actors i).program ≡ call c k
        → Answers s.server c r t
        → Inv lib law namespace name role t (then_at c k r)
    act-Inv (get_pvc n m) k r t going answer = get-Inv n m k r t going answer
    act-Inv (update_pvc n written) k r t going answer = update-Inv n written k r t going answer
    act-Inv (patch_pvc n m patch) k r t going answer = patch-Inv n m patch k r t going answer
    act-Inv c k r t going still =
        subst (λ t. Inv lib law namespace name role t (then_at c k r)) (sym still)
          (same_server lib law namespace name role s inv i c k r going tt (
            quiet-HeldBy lib law namespace name (event c r) s.server.claim (role i) so_far
              (λ _ claimed. claimed) (λ u. u) (inv.each i).held))

  Step-Inv :
      ((i j : ℕ) (purpose : Purpose) → role i ≡ taker purpose → role j ≡ taker purpose → i ≡ j)
      → {s t : System} → Inv lib law namespace name role s.server s.actors
      → Step s t
      → Inv lib law namespace name role t.server t.actors
  Step-Inv apart {s} inv (act i c k r t going answer) = act-Inv apart s inv i c k r t going answer
  Step-Inv apart {s} inv (outside new t state nodes deleting kept) =
      outside-Inv lib law namespace name role s new t inv state nodes kept

  pub Reach-Inv :
      ((i j : ℕ) (purpose : Purpose) → role i ≡ taker purpose → role j ≡ taker purpose → i ≡ j)
      → {s t : System} → Inv lib law namespace name role s.server s.actors
      → Reach s t
      → Inv lib law namespace name role t.server t.actors
  Reach-Inv apart inv here = inv
  Reach-Inv apart inv (next run step) = Step-Inv apart (Reach-Inv apart inv run) step
