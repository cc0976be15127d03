-- ===== src/Common/Pvc/Refinement.antt =====
-- The versions that staging and unstaging send, and how the three programs that change a claim's state are
-- steps of a state machine.
use mathlib.Core.Path.{subst}
use subprovisioner.Base.{
  String, sym, List, ◌≡◌, refl, ◌==◌, [], ◌∷◌, inl, inr, Bool-cases, true, false,
}
use subprovisioner.Kube.Objects.{Pvc}
use subprovisioner.Kube.Errors.{ok, err}
use subprovisioner.Kube.Calls.{Call, event, History, get_pvc, update_pvc, back_off}
use subprovisioner.Kube.Contract.{Meets, Outcome, Meets-weaken}
use subprovisioner.Kube.Libraries.{Libraries, IsLawful}
use subprovisioner.Common.NodeSet.Splitting.{IsName}
use subprovisioner.Common.NodeSet
use subprovisioner.Common.Pvc.Changes.{
  Takes, Stages, Unstages, taken-Takes, staged-Stages, unstaged-Unstages,
}
use subprovisioner.Common.Pvc.{
  is_set, with_state, staged_on, unstaged_from, without_nodes, set_pvc_state_to, stage_pvc_on_node,
  unstage_pvc_from_node,
}
use subprovisioner.Common.Pvc.Nodes.{state_of, nodes_of}
use subprovisioner.Common.Pvc.Claim.{ClaimOrder, IsClaim, Meets-set_pvc_state_to}
use subprovisioner.Common.Pvc.Staging.{
  IsChange, ChangeOrder, MayStage, AnyPvc, Meets-stage_pvc_on_node, Meets-unstage_pvc_from_node,
}
use subprovisioner.Common.Pvc.Exclusion.{Purpose, purpose_state}

-- The server takes the written object for the one that was read, at the version that was read.
abbrev pub IsSameVersion : Pvc → Pvc → Type 0
IsSameVersion read written =
    (written.name ≡ read.name)
    × (written.namespace ≡ read.namespace)
    × (written.uid ≡ read.uid)
    × (written.resource_version ≡ read.resource_version)

module _ (lib : Libraries) (namespace name : String) where
  without-IsSameVersion :
      (nodes : List String) (pvc : Pvc) → IsSameVersion pvc (without_nodes lib nodes pvc)
  without-IsSameVersion [] pvc = (refl, refl, refl, refl)
  without-IsSameVersion (_ ∷ _) pvc = (refl, refl, refl, refl)

  pub unstaged-IsSameVersion :
      (node : String) (pvc : Pvc) → IsSameVersion pvc (unstaged_from lib node pvc)
  unfolding unstaged_from
  unstaged-IsSameVersion node pvc = elim (Bool-cases (state_of pvc == "staged")) [
    | inl staged ↦ rw staged (without-IsSameVersion (NodeSet.remove node (nodes_of pvc)) pvc)
    | inr other ↦ rw other (refl, refl, refl, refl)
  ]

  without-timestamp :
      (nodes : List String) (pvc : Pvc)
      → (without_nodes lib nodes pvc).deletion_timestamp ≡ pvc.deletion_timestamp
  without-timestamp [] pvc = refl
  without-timestamp (_ ∷ _) pvc = refl

  pub unstaged-timestamp :
      (node : String) (pvc : Pvc)
      → (unstaged_from lib node pvc).deletion_timestamp ≡ pvc.deletion_timestamp
  unfolding unstaged_from
  unstaged-timestamp node pvc = elim (Bool-cases (state_of pvc == "staged")) [
    | inl staged ↦ rw staged (without-timestamp (NodeSet.remove node (nodes_of pvc)) pvc)
    | inr other ↦ rw other refl
  ]

  pub staged-IsSameVersion :
      (node : String) (pvc : Pvc) → IsSameVersion pvc (staged_on lib node pvc)
  unfolding staged_on
  staged-IsSameVersion node pvc = (refl, refl, refl, refl)

module _ (namespace name : String) (Change : Pvc → Pvc → Type 0) where
  -- An update right after a read of the claim, which is such a change of what was read.
  abbrev pub IsStep : History → Pvc → Type 0
  IsStep (event (get_pvc n m) (ok pvc) ∷ _) written =
      (n ≡ namespace) × (m ≡ name) × Change pvc written
  IsStep _ _ = ⊥

  abbrev pub StepOrder : History → Call → Type 0
  StepOrder h (get_pvc n m) = (n ≡ namespace) × (m ≡ name)
  StepOrder h (update_pvc n written) = (n ≡ namespace) × IsStep h written
  StepOrder h back_off = Unit
  StepOrder h _ = ⊥

  claim-IsStep :
      (state : String)
      → ((pvc : Pvc)
          → is_set pvc.deletion_timestamp ≡ false
          → (state_of pvc == "idle") ≡ true
          → Change pvc (with_state pvc state))
      → (h : History) (written : Pvc) → IsClaim namespace name state h written
      → IsStep h written
  claim-IsStep state takes [] written claim = elim claim [ ]
  claim-IsStep state takes (event (get_pvc _ _) (ok pvc) ∷ _) written
        (same, named, alive, idle, change) =
      (same, named, subst (Change pvc) (sym change) (takes pvc alive idle))
  claim-IsStep state takes (event (get_pvc _ _) (err _) ∷ _) written claim = elim claim [ ]
  claim-IsStep state takes (event _ _ ∷ _) written claim = elim claim [ ]

  take_within :
      (state : String)
      → ((pvc : Pvc)
          → is_set pvc.deletion_timestamp ≡ false
          → (state_of pvc == "idle") ≡ true
          → Change pvc (with_state pvc state))
      → (h : History) (c : Call) → ClaimOrder namespace name state h c
      → StepOrder h c
  take_within state takes h (get_pvc n m) allowed = allowed
  take_within state takes h back_off allowed = tt
  take_within state takes h (update_pvc n written) (at, claim) =
      (at, claim-IsStep state takes h written claim)
  take_within state takes h _ allowed = elim allowed [ ]

  module _ (Accepts : Pvc → Type 0) (change : Pvc → Pvc)
      (changes : (pvc : Pvc) → Accepts pvc → Change pvc (change pvc)) where
    change-IsStep :
        (h : History) (written : Pvc)
        → IsChange namespace name Accepts change h written
        → IsStep h written
    change-IsStep [] written changed = elim changed [ ]
    change-IsStep (event (get_pvc _ _) (ok pvc) ∷ _) written (same, named, accepted, p) =
        (same, named, subst (Change pvc) (sym p) (changes pvc accepted))
    change-IsStep (event (get_pvc _ _) (err _) ∷ _) written changed = elim changed [ ]
    change-IsStep (event _ _ ∷ _) written changed = elim changed [ ]

    change_within :
        (h : History) (c : Call) → ChangeOrder namespace name Accepts change h c → StepOrder h c
    change_within h (get_pvc n m) allowed = allowed
    change_within h back_off allowed = tt
    change_within h (update_pvc n written) (at, changed) = (at, change-IsStep h written changed)
    change_within h _ allowed = elim allowed [ ]

abbrev pub AnyEnd : History → Outcome (Unit {0}) → Type 0
AnyEnd h o = Unit

-- Whatever the answers are: taking a volume for a purpose, staging it on a node with a proper name
-- and unstaging it from a node read and write only the claim that they are given, and each write comes
-- right after a read of the claim. It sends what was read, with its version, finalizers and labels,
-- and changes the state and the nodes alone: taking sets the purpose's state on an idle claim and
-- keeps the nodes; staging makes an idle or staged claim staged and adds the node to those that it
-- lists; neither writes a claim that is being deleted; and unstaging takes the node alone out of a
-- staged claim, which is idle if no node is left, and leaves another claim as it is. The nodes are as
-- said if the claim that was read lists only names.
pub state_changes_are_steps :
    (lib : Libraries) (law : IsLawful lib) (namespace name : String) (purpose : Purpose)
    (node : String)
    → IsName node
    → Meets
        (StepOrder namespace name (Takes (purpose_state purpose)))
        AnyEnd
        []
        (set_pvc_state_to lib name namespace (purpose_state purpose))
      × Meets
          (StepOrder namespace name (Stages node))
          AnyEnd
          []
          (stage_pvc_on_node lib name namespace node)
      × Meets
          (StepOrder namespace name (Unstages node))
          AnyEnd
          []
          (unstage_pvc_from_node lib name namespace node)
state_changes_are_steps lib law namespace name purpose node proper =
    let takes = StepOrder namespace name (Takes (purpose_state purpose)) in
    let stages = StepOrder namespace name (Stages node) in
    let unstages = StepOrder namespace name (Unstages node) in
    (
      Meets-weaken takes _ AnyEnd [] _
          (Meets-set_pvc_state_to namespace name (purpose_state purpose) takes
            (take_within namespace name (Takes (purpose_state purpose)) (purpose_state purpose)
              (taken-Takes (purpose_state purpose)))
            (λ _. Unit {0}) (λ _ _ _. tt) lib law [] tt)
          (λ _ _ _. tt),
      Meets-weaken stages _ AnyEnd [] _
          (Meets-stage_pvc_on_node namespace name node lib law stages (λ _. Unit {0}) (λ _ _ _. tt)
            (λ h c _.
              change_within namespace name (Stages node) (MayStage namespace name node lib law)
                (staged_on lib node) (λ pvc may. staged-Stages lib law node pvc proper may.0 may.1)
                h c)
            [] tt)
          (λ _ _ _. tt),
      Meets-weaken unstages _ AnyEnd [] _
          (Meets-unstage_pvc_from_node namespace name node lib law unstages (λ _. Unit {0})
            (λ _ _ _. tt)
            (λ h c _.
              change_within namespace name (Unstages node) (AnyPvc namespace name node lib law)
                (unstaged_from lib node) (λ pvc _. unstaged-Unstages lib law node pvc) h c)
            [] tt)
          (λ _ _ _. tt),
    )
