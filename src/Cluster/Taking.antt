-- ===== src/Cluster/Taking.antt =====
-- Programs that take a volume: the calls between taking it and freeing it are not about the claim.
pub mod Programs
use subprovisioner.Base.{String, [], ◌∷◌, inl, inr}
use subprovisioner.Kube.Errors.{Error}
use subprovisioner.Kube.Calls.{
  Call, Reply, event, History, get_pvc, update_pvc, patch_pvc, create_job, back_off,
}
use subprovisioner.Kube.Contract.{Meets, Success, Saw, Outcome}
use subprovisioner.Kube.Prog.{Prog, ret, fail, unfinished, call, ◌>>=◌}
use subprovisioner.Kube.Libraries.{Libraries, IsLawful}
use subprovisioner.Common.Pvc.Claim.{Claimed, ClaimOrder}
use subprovisioner.Common.Pvc.Exclusion.{Purpose, purpose_state}
use subprovisioner.Cluster.Roles.{taker, Unpatched, Working, RoleOrder, AnyEnd}

-- A call that neither reads nor writes the claim.
abbrev pub Quiet : History → Call → Type 0
Quiet h (get_pvc _ _) = ⊥
Quiet h (update_pvc _ _) = ⊥
Quiet h (patch_pvc _ _ _) = ⊥
Quiet h _ = Unit

Unpatched-Quiet :
    (h : History) (c : Call) (r : Reply c) → Quiet h c → Unpatched h → Unpatched (event c r ∷ h)
Unpatched-Quiet h (get_pvc _ _) r quiet unpatched = unpatched
Unpatched-Quiet h (update_pvc _ _) r quiet unpatched = unpatched
Unpatched-Quiet h (patch_pvc _ _ _) r quiet unpatched = elim quiet [ ]
Unpatched-Quiet h _ r quiet unpatched = unpatched

Unpatched-claim :
    (namespace name state : String) (h : History) (c : Call) (r : Reply c)
    → ClaimOrder namespace name state h c
    → Unpatched h
    → Unpatched (event c r ∷ h)
Unpatched-claim namespace name state h (get_pvc _ _) r allowed unpatched = unpatched
Unpatched-claim namespace name state h (update_pvc _ _) r allowed unpatched = unpatched
Unpatched-claim namespace name state h back_off r allowed unpatched = unpatched
Unpatched-claim namespace name state h (patch_pvc _ _ _) r allowed unpatched = elim allowed [ ]
Unpatched-claim namespace name state h _ r allowed unpatched = unpatched

module _ (lib : Libraries) (law : IsLawful lib) (namespace name : String) (purpose : Purpose) where
  abbrev pub TakerOrder : History → Call → Type 0
  TakerOrder = RoleOrder lib law namespace name (taker purpose)

  abbrev pub Busy : History → Type 0
  Busy = Working lib law namespace name (taker purpose)

  Quiet-within : (h : History) (c : Call) → Busy h → Quiet h c → TakerOrder h c
  Quiet-within h (get_pvc _ _) busy quiet = elim quiet [ ]
  Quiet-within h (update_pvc _ _) busy quiet = elim quiet [ ]
  Quiet-within h (patch_pvc _ _ _) busy quiet = elim quiet [ ]
  Quiet-within h (create_job _ _) busy quiet = busy
  Quiet-within h _ busy quiet = tt

  claim_within :
      (h : History) (c : Call)
      → ClaimOrder namespace name (purpose_state purpose) h c
      → TakerOrder h c
  claim_within h (get_pvc _ _) allowed = allowed
  claim_within h (update_pvc _ _) allowed = allowed
  claim_within h back_off allowed = tt
  claim_within h (create_job _ _) allowed = elim allowed [ ]
  claim_within h _ allowed = elim allowed [ ]

  module _ {ℓ κ} {A : Type ℓ} {B : Type κ} (f : A → Prog B) where
    -- A quiet part, in front of the rest of a program that works on the volume.
    pub Quiet-then :
        (Post : History → Outcome A → Type 0) (h : History) (m : Prog A)
        → Meets Quiet Post h m
        → Busy h
        → ((g : History) (a : A) → Busy g → Meets TakerOrder AnyEnd g (f a))
        → Meets TakerOrder AnyEnd h (m >>= f)
    unfolding Meets
    Quiet-then Post h (ret a) first busy rest = rest h a busy
    Quiet-then Post h (fail e) first busy rest = tt
    Quiet-then Post h unfinished first busy rest = tt
    Quiet-then Post h (call c k) (quiet, first) (claimed, unpatched) rest = (
      Quiet-within h c (claimed, unpatched) quiet,
      λ r.
          Quiet-then Post (event c r ∷ h) (k r) (first r)
            (inr claimed, Unpatched-Quiet h c r quiet unpatched) rest,
    )

    -- Taking the volume, in front of the rest of a program.
    pub take-then :
        (h : History) (m : Prog A)
        → Meets
            (ClaimOrder namespace name (purpose_state purpose))
            (Success (λ g _. Saw (Claimed namespace name (purpose_state purpose)) g))
            h
            m
        → Unpatched h
        → ((g : History) (a : A) → Busy g → Meets TakerOrder AnyEnd g (f a))
        → Meets TakerOrder AnyEnd h (m >>= f)
    unfolding Meets
    take-then h (ret a) first unpatched rest = rest h a (first, unpatched)
    take-then h (fail e) first unpatched rest = tt
    take-then h unfinished first unpatched rest = tt
    take-then h (call c k) (allowed, first) unpatched rest = (
      claim_within h c allowed,
      λ r.
          take-then (event c r ∷ h) (k r) (first r)
            (Unpatched-claim namespace name (purpose_state purpose) h c r allowed unpatched) rest,
    )
