-- ===== src/Cluster/Invariant/Cases.antt =====
-- What an actor knows of the claim after one more call, by its role.
use mathlib.Core.Path.{subst}
use subprovisioner.Base.{String, ◌≡◌, refl, sym, ◌∙◌, ◌==◌, true, ◌∷◌, inl, inr, eq_iff}
use subprovisioner.Kube.Objects.{Pvc, MetaPatch}
use subprovisioner.Kube.Errors.{Result, ok}
use subprovisioner.Kube.Calls.{Event, event, History, get_pvc, patch_pvc}
use subprovisioner.Kube.Libraries.{Libraries, IsLawful}
use subprovisioner.Common.Pvc.Nodes.{state_of}
use subprovisioner.Common.Pvc.Claim.{Claimed}
use subprovisioner.Common.Pvc.Exclusion.{Purpose, expanding, cloning, snapshotting, purpose_state}
use subprovisioner.Cluster.Roles.{
  Role, taker, stager, unstager, remover, Unpatched, Working, RoleOrder, SetsIdle,
}
use subprovisioner.Cluster.Effects.{HeldBy}

-- A volume is held for one purpose at most.
same_purpose :
    (one other : Purpose) → (purpose_state one == purpose_state other) ≡ true → one ≡ other
same_purpose expanding expanding e = refl
same_purpose cloning cloning e = refl
same_purpose snapshotting snapshotting e = refl
same_purpose expanding cloning e = cc
same_purpose expanding snapshotting e = cc
same_purpose cloning expanding e = cc
same_purpose cloning snapshotting e = cc
same_purpose snapshotting expanding e = cc
same_purpose snapshotting cloning e = cc

pub HeldBy-unique :
    (one other : Purpose) (pvc : Pvc)
    → HeldBy (taker one) pvc
    → HeldBy (taker other) pvc
    → one ≡ other
HeldBy-unique one other pvc first second = same_purpose one other (
    (eq_iff _ _).1 (
      sym ((eq_iff (state_of pvc) (purpose_state one)).0 first)
      ∙ (eq_iff (state_of pvc) (purpose_state other)).0 second))

-- A change that keeps every taken state keeps what a role knows.
pub HeldBy-mono :
    (role : Role) (old new : Pvc)
    → ((purpose : Purpose) → HeldBy (taker purpose) old → HeldBy (taker purpose) new)
    → HeldBy role old
    → HeldBy role new
HeldBy-mono (taker purpose) old new kept held = kept purpose held
HeldBy-mono (stager _ _) old new kept held = tt
HeldBy-mono (unstager _) old new kept held = tt
HeldBy-mono remover old new kept held = tt

module _ (lib : Libraries) (law : IsLawful lib) (namespace name : String) where
  -- A read that shows the claim.
  pub read-HeldBy :
      (n m : String) (pvc claim : Pvc) (role : Role) (h : History)
      → pvc ≡ claim
      → (Working lib law namespace name role h → HeldBy role claim)
      → Working lib law namespace name role (event (get_pvc n m) (ok pvc) ∷ h)
      → HeldBy role claim
  read-HeldBy n m pvc claim (taker purpose) h same held (inl claimed, unpatched) =
      subst (HeldBy (taker purpose)) same claimed.3
  read-HeldBy n m pvc claim (taker purpose) h same held (inr claimed, unpatched) =
      held (claimed, unpatched)
  read-HeldBy n m pvc claim (stager _ _) h same held working = tt
  read-HeldBy n m pvc claim (unstager _) h same held working = tt
  read-HeldBy n m pvc claim remover h same held working = tt

  -- An event that takes nothing.
  pub quiet-HeldBy :
      (e : Event) (claim : Pvc) (role : Role) (h : History)
      → ((state : String) → Claimed namespace name state e → ⊥)
      → (Unpatched (e ∷ h) → Unpatched h)
      → (Working lib law namespace name role h → HeldBy role claim)
      → Working lib law namespace name role (e ∷ h)
      → HeldBy role claim
  quiet-HeldBy e claim (taker purpose) h quiet earlier held (inl claimed, unpatched) =
      absurd (quiet (purpose_state purpose) claimed)
  quiet-HeldBy e claim (taker purpose) h quiet earlier held (inr claimed, unpatched) =
      held (claimed, earlier unpatched)
  quiet-HeldBy e claim (stager _ _) h quiet earlier held working = tt
  quiet-HeldBy e claim (unstager _) h quiet earlier held working = tt
  quiet-HeldBy e claim remover h quiet earlier held working = tt

  pub patched-not-Working :
      (n m : String) (patch : MetaPatch) (r : Result (Unit {0})) (role : Role) (h : History)
      → ¬ Working lib law namespace name role (event (patch_pvc n m patch) r ∷ h)
  patched-not-Working n m patch r (taker purpose) h (_, unpatched) = unpatched
  patched-not-Working n m patch r (stager _ _) h working = working
  patched-not-Working n m patch r (unstager _) h working = working
  patched-not-Working n m patch r remover h working = working

  -- Only a taker that works on the volume patches the claim.
  pub patch-Working :
      (n m : String) (patch : MetaPatch) (role : Role) (h : History)
      → RoleOrder lib law namespace name role h (patch_pvc n m patch)
      → (purpose : Purpose) × (role ≡ taker purpose)
        × Working lib law namespace name role h
        × SetsIdle patch
  patch-Working n m patch (taker purpose) h (_, _, working, idle) = (purpose, refl, working, idle)
  patch-Working n m patch (stager _ _) h allowed = elim allowed [ ]
  patch-Working n m patch (unstager _) h allowed = elim allowed [ ]
  patch-Working n m patch remover h allowed = elim allowed [ ]

  pub Working-taker :
      (role : Role) (h : History)
      → Working lib law namespace name role h
      → (purpose : Purpose) × (role ≡ taker purpose)
  Working-taker (taker purpose) h working = (purpose, refl)
  Working-taker (stager _ _) h working = elim working [ ]
  Working-taker (unstager _) h working = elim working [ ]
  Working-taker remover h working = elim working [ ]
