-- ===== src/Cluster/Sealing.antt =====
-- A claim that is being deleted: every step of the cluster keeps it so, and keeps it without nodes.
use mathlib.Core.Path.{subst}
use subprovisioner.Base.{ℕ, String, ◌≡◌, inl, inr}
use subprovisioner.Kube.Objects.{Pvc}
use subprovisioner.Kube.Errors.{ok, err}
use subprovisioner.Kube.Calls.{Call, Reply, event, get_pvc}
use subprovisioner.Kube.Contract.{Saw}
use subprovisioner.Kube.Libraries.{Libraries, IsLawful}
use subprovisioner.Common.Pvc.Exclusion.{Purpose}
use subprovisioner.Cluster.{Server, Answers, System, Step, act, outside, Reach, here, next}
use subprovisioner.Cluster.Roles.{Role, taker, Removable}
use subprovisioner.Cluster.Sealed.{IsDeleting, NoNodes, NoNodes-read}
use subprovisioner.Cluster.Effects.{patch-KeepsSealed}
use subprovisioner.Cluster.Invariant.{Inv, replace-Saw}
use subprovisioner.Cluster.Invariant.Calls.{Reach-Inv}
use subprovisioner.Cluster.Changes.{Respected, Step-change}

-- A claim that is being deleted still is, and without nodes if it was.
abbrev pub Lasts : Pvc → Pvc → Type 0
Lasts old new = IsDeleting old → IsDeleting new × (NoNodes old → NoNodes new)

module _ (lib : Libraries) (law : IsLawful lib) (namespace name : String) (role : ℕ → Role) where
  abbrev Invariant : System → Type 0
  Invariant s = Inv lib law namespace name role s.server s.actors

  lasting : Respected lib law namespace name (λ _. Lasts)
  lasting = record {
    same = λ who pvc deleting. (deleting, λ none. none);
    stamped = λ who old new version lasts. lasts;
    updated = λ role old new consistent known. known.5 consistent;
    freed = λ purpose old new patch consistent held merged idle.
        patch-KeepsSealed lib law namespace name old new patch merged idle consistent;
    from_outside = λ old new state nodes kept deleting. (kept deleting, λ none. rw nodes none);
  }

  Step-Lasts : {s t : System} → Invariant s → Step s t → Lasts s.server.claim t.server.claim
  Step-Lasts inv step = Step-change lib law namespace name (λ _. Lasts) lasting role inv step

  -- The claim is being deleted, and it lists no node once actor `i` has read it without nodes.
  module _ (i : ℕ) where
    pub record Sealing (s : System) : Type 0 where
      pub deleting : IsDeleting s.server.claim
      pub removable : Saw Removable (s.actors i).history → NoNodes s.server.claim

    -- A read without nodes shows the claim without nodes.
    read-NoNodes :
        (c : Call) (r : Reply c) (s t : Server)
        → Answers s c r t
        → Removable (event c r)
        → NoNodes s.claim
    read-NoNodes (get_pvc n m) (ok pvc) s t (same, _) removable =
        subst NoNodes same (NoNodes-read pvc removable)
    read-NoNodes (get_pvc n m) (err e) s t answer removable = elim removable [ ]
    read-NoNodes c r s t answer removable = elim removable [ ]

    Step-Sealing : {s t : System} → Invariant s → Sealing s → Step s t → Sealing t
    Step-Sealing {s} inv seal (act j c k r t going answer) =
        let (deleting, empty) = Step-Lasts inv (act j c k r t going answer) seal.deleting in
        record {
          deleting = deleting;
          removable = λ seen.
              empty (elim (replace-Saw Removable s.actors j (event c r) (k r) i seen) [
                | inl before ↦ seal.removable before
                | inr (_, now) ↦ read-NoNodes c r s.server t answer now
              ]);
        }
    Step-Sealing {s} inv seal (outside new t state nodes deleting kept) =
        let (still, empty) =
          Step-Lasts inv (outside new t state nodes deleting kept) seal.deleting in
        record { deleting = still; removable = λ seen. empty (seal.removable seen) }

    pub Reach-Sealing :
        ((i j : ℕ) (purpose : Purpose) → role i ≡ taker purpose → role j ≡ taker purpose → i ≡ j)
        → {s t : System} → Invariant s
        → Sealing s
        → Reach s t
        → Sealing t
    Reach-Sealing apart inv seal here = seal
    Reach-Sealing apart inv seal (next run step) =
        Step-Sealing (Reach-Inv lib law namespace name role apart inv run)
          (Reach-Sealing apart inv seal run) step
