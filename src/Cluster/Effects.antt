-- ===== src/Cluster/Effects.antt =====
-- What an accepted write of an actor makes of the claim.
use mathlib.Core.Path.{subst}
use subprovisioner.Base.{
  String, ◌≡◌, refl, sym, ◌∙◌, ◌==◌, true, false, none, [], ◌∷◌, eq_iff, contains,
}
use subprovisioner.Base.Dict
use subprovisioner.Kube.Objects.{Pvc, MetaPatch}
use subprovisioner.Kube.Errors.{ok, err}
use subprovisioner.Kube.Calls.{event, History, get_pvc, update_pvc}
use subprovisioner.Kube.Libraries.{Libraries, IsLawful}
use subprovisioner.Common.Pvc.{
  with_state, state_key, nodes_key, stage_refusal, staged_on, unstaged_from,
}
use subprovisioner.Common.Pvc.Nodes.{state_of, nodes_of}
use subprovisioner.Common.Pvc.Claim.{IsClaim, with_state-state}
use subprovisioner.Common.Pvc.Staging.{IsChange, MayStage, AnyPvc}
use subprovisioner.Common.Pvc.Consistency.{IsConsistent}
use subprovisioner.Common.Pvc.Exclusion.{
  Purpose, expanding, cloning, snapshotting, purpose_state, Write, stage, unstage, take, release,
  not_staged, purpose_not_staged,
}
use subprovisioner.Common.Pvc.Refinement.{staged-IsSameVersion, unstaged-IsSameVersion}
use subprovisioner.Common.Pvc.Abstract.{
  Action, work_for, leave, Move, stay, view, taken-Move, Move-stage, Move-unstage,
}
use subprovisioner.Cluster.{Server, IsMerged}
use subprovisioner.Cluster.Listing.{
  KeepsListing, take-KeepsListing, stage-KeepsListing, unstage-KeepsListing, release-KeepsListing,
}
use subprovisioner.Controller.Monitor.{remove_finalizer}
use subprovisioner.Cluster.Sealed.{
  KeepsSealed, alive-KeepsSealed, same-KeepsSealed, unstage-KeepsSealed,
}
use subprovisioner.Cluster.Roles.{
  Role, taker, stager, unstager, remover, released, IsReleased, RoleOrder, SetsIdle,
}

-- What a role asks of the abstract machine.
abbrev pub action_of : Role → Action
action_of (taker purpose) = work_for purpose
action_of (stager node _) = Action.stage node
action_of (unstager node) = Action.unstage node
action_of remover = leave

-- The claim is in the state for which a taker works.
abbrev pub HeldBy : Role → Pvc → Type 0
HeldBy (taker purpose) pvc = (state_of pvc == purpose_state purpose) ≡ true
HeldBy (stager _ _) pvc = Unit
HeldBy (unstager _) pvc = Unit
HeldBy remover pvc = Unit

-- A read that was just made shows the claim, unless the version has changed since.
abbrev pub IsFresh : Server → History → Type 0
IsFresh s (event (get_pvc _ _) (ok pvc) ∷ _) =
    (contains s.used pvc.resource_version ≡ true)
    × (pvc.resource_version ≡ s.claim.resource_version → pvc ≡ s.claim)
IsFresh s _ = Unit

purpose_not_idle : (purpose : Purpose) → (purpose_state purpose == "idle") ≡ false
purpose_not_idle expanding = refl
purpose_not_idle cloning = refl
purpose_not_idle snapshotting = refl

-- A state that equals one text does not equal another.
not_both :
    (state one other : String)
    → (one == other) ≡ false
    → (state == one) ≡ true
    → (state == other) ≡ true
    → ⊥
not_both state one other differs first second =
    let same =
      (eq_iff one other).1 (sym ((eq_iff state one).0 first) ∙ (eq_iff state other).0 second) in
    cc

refused : (purpose : Purpose) → stage_refusal (purpose_state purpose) ≡ none → ⊥
unfolding stage_refusal
refused expanding h = cc
refused cloning h = cc
refused snapshotting h = cc

module _ (lib : Libraries) (law : IsLawful lib) (namespace name : String) where
  unstaged_kept :
      (node : String) (pvc : Pvc) (purpose : Purpose)
      → HeldBy (taker purpose) pvc
      → HeldBy (taker purpose) (unstaged_from lib node pvc)
  unfolding unstaged_from
  unstaged_kept node pvc purpose held =
      rw (not_staged (state_of pvc) (purpose_state purpose) held (purpose_not_staged purpose)) held

  -- What is known of an update by what was read right before it.
  abbrev pub Known : Role → Pvc → Pvc → Type 0
  Known role pvc written =
      Write lib pvc written
      × (written.resource_version ≡ pvc.resource_version)
      × ((purpose : Purpose) → HeldBy (taker purpose) pvc → HeldBy (taker purpose) written)
      × HeldBy role written
      × KeepsListing role pvc written
      × KeepsSealed pvc written
      × (IsConsistent pvc → Move (action_of role) (view pvc) (view written))

  abbrev Seen : Role → History → Pvc → Type 0
  Seen role (event (get_pvc _ _) (ok pvc) ∷ _) written = Known role pvc written
  Seen role _ written = ⊥

  claim-Seen :
      (purpose : Purpose) (h : History) (written : Pvc)
      → IsClaim namespace name (purpose_state purpose) h written
      → Seen (taker purpose) h written
  claim-Seen purpose [] written claim = elim claim [ ]
  claim-Seen purpose (event (get_pvc _ _) (ok pvc) ∷ _) written (_, _, alive, idle, change) =
      subst (Known (taker purpose) pvc) (sym change) (
        take purpose pvc idle,
        refl,
        λ other held. absurd (
            not_both (state_of pvc) (purpose_state other) "idle" (purpose_not_idle other) held
              idle),
        with_state-state namespace name (purpose_state purpose) pvc,
        take-KeepsListing purpose pvc (with_state pvc (purpose_state purpose)) idle,
        alive-KeepsSealed pvc (with_state pvc (purpose_state purpose)) alive,
        λ _. taken-Move pvc purpose idle,
      )
  claim-Seen purpose (event (get_pvc _ _) (err _) ∷ _) written claim = elim claim [ ]
  claim-Seen purpose (event _ _ ∷ _) written claim = elim claim [ ]

  change-Seen :
      (role : Role) (Accepts : Pvc → Type 0) (change : Pvc → Pvc)
      → ((pvc : Pvc) → Accepts pvc → Known role pvc (change pvc))
      → (h : History) (written : Pvc) → IsChange namespace name Accepts change h written
      → Seen role h written
  change-Seen role Accepts change known [] written changed = elim changed [ ]
  change-Seen role Accepts change known (event (get_pvc _ _) (ok pvc) ∷ _) written
        (_, _, accepted, p) =
      subst (Known role pvc) (sym p) (known pvc accepted)
  change-Seen role Accepts change known (event (get_pvc _ _) (err _) ∷ _) written changed =
      elim changed [ ]
  change-Seen role Accepts change known (event _ _ ∷ _) written changed = elim changed [ ]

  release-Seen : (h : History) (written : Pvc) → IsReleased h written → Seen remover h written
  release-Seen [] written change = elim change [ ]
  release-Seen (event (get_pvc _ _) (ok pvc) ∷ _) written change =
      subst (Known remover pvc) (sym change) (
        release pvc (remove_finalizer pvc.finalizers),
        refl,
        λ purpose held. held,
        tt,
        release-KeepsListing pvc,
        same-KeepsSealed pvc (released pvc) refl refl,
        λ _. stay (view pvc),
      )
  release-Seen (event (get_pvc _ _) (err _) ∷ _) written change = elim change [ ]
  release-Seen (event _ _ ∷ _) written change = elim change [ ]

  update-Seen :
      (role : Role) (h : History) (n : String) (written : Pvc)
      → RoleOrder lib law namespace name role h (update_pvc n written)
      → Seen role h written
  update-Seen (taker purpose) h n written (_, claim) = claim-Seen purpose h written claim
  update-Seen (stager node proper) h n written (_, changed) =
      change-Seen (stager node proper) (MayStage namespace name node lib law) (staged_on lib node)
        (λ pvc may. (
          stage node pvc proper may.1,
          (staged-IsSameVersion lib namespace name node pvc).3,
          λ purpose held.
              absurd
                (refused purpose (subst (λ s. stage_refusal s ≡ none) ((eq_iff _ _).0 held) may.1)),
          tt,
          stage-KeepsListing lib law node proper pvc,
          alive-KeepsSealed pvc (staged_on lib node pvc) may.0,
          λ c. Move-stage lib law node pvc c proper may.1,
        ))
        h written changed
  update-Seen (unstager node) h n written (_, changed) =
      change-Seen (unstager node) (AnyPvc namespace name node lib law) (unstaged_from lib node)
        (λ pvc _. (
          unstage node pvc,
          (unstaged-IsSameVersion lib namespace name node pvc).3,
          unstaged_kept node pvc,
          tt,
          unstage-KeepsListing lib law node pvc,
          unstage-KeepsSealed lib namespace name node pvc,
          Move-unstage lib law node pvc,
        ))
        h written changed
  update-Seen remover h n written changed = release-Seen h written changed

  -- An update that the server accepts is a step from the claim as it stands.
  pub update_effect :
      (s : Server) (role : Role) (h : History) (n : String) (written : Pvc)
      → IsFresh s h
      → RoleOrder lib law namespace name role h (update_pvc n written)
      → written.resource_version ≡ s.claim.resource_version
      → Known role s.claim written
  update_effect s role h n written fresh allowed match =
      go h fresh (update-Seen role h n written allowed)
    where
      go : (h : History) → IsFresh s h → Seen role h written → Known role s.claim written
      go (event (get_pvc _ _) (ok pvc) ∷ _) fresh known =
          subst (λ p. Known role p written) (fresh.1 (sym known.1 ∙ match)) known
      go (event (get_pvc _ _) (err _) ∷ _) fresh known = elim known [ ]
      go (event _ _ ∷ _) fresh known = elim known [ ]
      go [] fresh known = elim known [ ]

  pub same_annotations-IsConsistent :
      (old new : Pvc)
      → nodes_of new ≡ nodes_of old
      → (state_of new == "staged") ≡ (state_of old == "staged")
      → IsConsistent old
      → IsConsistent new
  same_annotations-IsConsistent old new nodes state c = record {
    names = rw nodes c.names;
    staged_nodes = rw nodes (state ∙ c.staged_nodes);
  }

  pub patch-KeepsSealed :
      (old new : Pvc) (patch : MetaPatch)
      → IsMerged old patch new
      → SetsIdle patch
      → KeepsSealed old new
  patch-KeepsSealed old new patch merged idle =
      let nodes : Dict.get new.annotations nodes_key ≡ Dict.get old.annotations nodes_key =
        merged.1 nodes_key ∙ (idle _).1 in
      same-KeepsSealed old new merged.0 (rw nodes refl)

  -- A patch that frees a taken volume leaves it idle and staged on no node.
  pub patch_effect :
      (old new : Pvc) (purpose : Purpose) (patch : MetaPatch)
      → IsMerged old patch new
      → SetsIdle patch
      → HeldBy (taker purpose) old
      → IsConsistent old
      → IsConsistent new
  patch_effect old new purpose patch merged idle held c =
      let nodes : Dict.get new.annotations nodes_key ≡ Dict.get old.annotations nodes_key =
        merged.1 nodes_key ∙ (idle _).1 in
      let state : state_of new ≡ "idle" = merged.1 state_key ∙ (idle _).0 in
      same_annotations-IsConsistent old new (rw nodes refl)
        (rw
          (
            state,
            not_staged (state_of old) (purpose_state purpose) held (purpose_not_staged purpose),
          )
          refl)
        c
