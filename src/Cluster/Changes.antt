-- ===== src/Cluster/Changes.antt =====
-- What a step of the cluster makes of the claim, for any relation that the server's doings respect.
use mathlib.Core.Path.{subst}
use subprovisioner.Base.{ℕ, String, ◌≡◌, sym, true, inl, inr}
use subprovisioner.Base.Dict
use subprovisioner.Kube.Objects.{Pvc, MetaPatch}
use subprovisioner.Kube.Errors.{Result, ok, err}
use subprovisioner.Kube.Calls.{Call, Reply, get_pvc, update_pvc, patch_pvc}
use subprovisioner.Kube.Prog.{Prog, call}
use subprovisioner.Kube.Libraries.{Libraries, IsLawful}
use subprovisioner.Common.Pvc.{is_set, state_key, nodes_key}
use subprovisioner.Common.Pvc.Consistency.{IsConsistent}
use subprovisioner.Common.Pvc.Exclusion.{Purpose}
use subprovisioner.Cluster.{Server, IsMerged, Stored, stored, Answers, System, Step, act, outside}
use subprovisioner.Cluster.Roles.{Role, taker, SetsIdle}
use subprovisioner.Cluster.Effects.{HeldBy, Known, update_effect}
use subprovisioner.Cluster.Invariant.{Inv, went_on}
use subprovisioner.Cluster.Invariant.Cases.{patch-Working}

-- Who makes a step.
pub data Who : Type 0 where
  by : Role → Who
  somebody : Who

abbrev pub who : (ℕ → Role) → {s t : System} → Step s t → Who
who role (act j _ _ _ _ _ _) = by (role j)
who role (outside _ _ _ _ _ _) = somebody

-- A relation between the claim before and after a step, for each who may make it.
pub record Respected (lib : Libraries) (law : IsLawful lib) (namespace name : String)
    (R : Who → Pvc → Pvc → Type 0) : Type 0 where
  pub same : (who : Who) (pvc : Pvc) → R who pvc pvc
  pub stamped :
      (who : Who) (old new : Pvc) (version : String)
      → R who old new
      → R who old (record new { resource_version = version })
  pub updated :
      (role : Role) (old new : Pvc)
      → IsConsistent old
      → Known lib law namespace name role old new
      → R (by role) old new
  pub freed :
      (purpose : Purpose) (old new : Pvc) (patch : MetaPatch)
      → IsConsistent old
      → HeldBy (taker purpose) old
      → IsMerged old patch new
      → SetsIdle patch
      → R (by (taker purpose)) old new
  pub from_outside :
      (old new : Pvc)
      → Dict.get new.annotations state_key ≡ Dict.get old.annotations state_key
      → Dict.get new.annotations nodes_key ≡ Dict.get old.annotations nodes_key
      → (is_set old.deletion_timestamp ≡ true → is_set new.deletion_timestamp ≡ true)
      → R somebody old new

module _ (lib : Libraries) (law : IsLawful lib) (namespace name : String)
    (R : Who → Pvc → Pvc → Type 0) (respected : Respected lib law namespace name R)
    (role : ℕ → Role) where
  still : (who : Who) (s t : Server) → t ≡ s → R who s.claim t.claim
  still who s t kept =
      subst (λ (t : Server). R who s.claim t.claim) (sym kept) (respected.same who s.claim)

  Stored-change :
      (who : Who) (s t : Server) (new : Pvc)
      → Stored s new t
      → R who s.claim new
      → R who s.claim t.claim
  Stored-change who s t new (stored version unused p) change =
      subst (λ (t : Server). R who s.claim t.claim) (sym p)
        (respected.stamped who s.claim new version change)

  module _ (s : System) (inv : Inv lib law namespace name role s.server s.actors) (j : ℕ) where
    updated-change :
        (n : String) (written : Pvc) (k : Result (Unit {0}) → Prog (Unit {0}))
        (r : Result (Unit {0})) (t : Server)
        → (s.actors j).program ≡ call (update_pvc n written) k
        → written.resource_version ≡ s.server.claim.resource_version
        → Stored s.server written t
        → R (by (role j)) s.server.claim t.claim
    updated-change n written k r t going match new =
        let allowed =
          (went_on lib law namespace name role s inv j (update_pvc n written) k r going).0 in
        Stored-change (by (role j)) s.server t written new (
          respected.updated (role j) s.server.claim written inv.consistent (
            update_effect lib law namespace name s.server (role j) (s.actors j).history n written
              (inv.each j).fresh allowed match))

    patched-change :
        (n m : String) (patch : MetaPatch) (k : Result (Unit {0}) → Prog (Unit {0}))
        (r : Result (Unit {0})) (new : Pvc) (t : Server)
        → (s.actors j).program ≡ call (patch_pvc n m patch) k
        → IsMerged s.server.claim patch new
        → Stored s.server new t
        → R (by (role j)) s.server.claim t.claim
    patched-change n m patch k r new t going merged kept =
        let (purpose, takes, working, idle) =
          patch-Working lib law namespace name n m patch (role j) (s.actors j).history
            (went_on lib law namespace name role s inv j (patch_pvc n m patch) k r going).0 in
        Stored-change (by (role j)) s.server t new kept (
          subst (λ role. R (by role) s.server.claim new) (sym takes)
            (respected.freed purpose s.server.claim new patch inv.consistent
              (subst (λ role. HeldBy role s.server.claim) takes ((inv.each j).held working)) merged
              idle))

    pub act-change :
        (c : Call) (k : Reply c → Prog (Unit {0})) (r : Reply c) (t : Server)
        → (s.actors j).program ≡ call c k
        → Answers s.server c r t
        → R (by (role j)) s.server.claim t.claim
    act-change (get_pvc n m) k (ok pvc) t going (_, kept) = still (by (role j)) s.server t kept
    act-change (get_pvc n m) k (err e) t going kept = still (by (role j)) s.server t kept
    act-change (update_pvc n written) k (ok x) t going (match, new) =
        updated-change n written k (ok x) t going match new
    act-change (update_pvc n written) k (err e) t going (inr (match, new)) =
        updated-change n written k (err e) t going match new
    act-change (update_pvc n written) k (err e) t going (inl kept) =
        still (by (role j)) s.server t kept
    act-change (patch_pvc n m patch) k (ok x) t going (new, merged, kept) =
        patched-change n m patch k (ok x) new t going merged kept
    act-change (patch_pvc n m patch) k (err e) t going (inr (new, merged, kept)) =
        patched-change n m patch k (err e) new t going merged kept
    act-change (patch_pvc n m patch) k (err e) t going (inl kept) =
        still (by (role j)) s.server t kept
    act-change c k r t going kept = still (by (role j)) s.server t kept

  pub Step-change :
      {s t : System}
      → Inv lib law namespace name role s.server s.actors
      → (step : Step s t) → R (who role step) s.server.claim t.server.claim
  Step-change {s} inv (act j c k r t going answer) = act-change s inv j c k r t going answer
  Step-change {s} inv (outside new t state nodes deleting kept) =
      Stored-change somebody s.server t new kept
        (respected.from_outside s.server.claim new state nodes deleting)
