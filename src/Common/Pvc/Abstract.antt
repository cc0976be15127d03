-- ===== src/Common/Pvc/Abstract.antt =====
-- A claim as a state and a set of nodes: the order of the nodes and the text that lists them are forgotten.
use mathlib.Core.Path.{subst}
use mathlib.Core.Bool.{Bool-set}
use mathlib.Core.Quot
use mathlib.Core.Quot.{Quot, Quot-set}
use subprovisioner.Base.{
  String, ◌≡◌, refl, sym, ◌∙◌, ap, ◌==◌, Bool, true, none, List, [], ◌∷◌, if◌then◌else◌, contains,
  inl, inr, Bool-cases, eq_iff, arith, ◌⊎◌, false,
}
use subprovisioner.Base.Dict.{get-set}
use subprovisioner.Kube.Objects.{Pvc}
use subprovisioner.Kube.Libraries.{Libraries, IsLawful}
use subprovisioner.Common.NodeSet
use subprovisioner.Common.NodeSet.Members.{contains-insert, contains-remove}
use subprovisioner.Common.NodeSet.Splitting.{IsName}
use subprovisioner.Common.Pvc.{stage_refusal, staged_on, without_nodes, unstaged_from, with_state}
use subprovisioner.Common.Pvc.Nodes.{
  state_of, nodes_of, staged_on_lem, unstaged_nodes, remove-AllNames,
}
use subprovisioner.Common.Pvc.Consistency.{IsConsistent, is_nonempty, nonempty_of_contains}
use subprovisioner.Common.Pvc.Changes.{accepted_states}
use subprovisioner.Common.Pvc.Exclusion.{Purpose, purpose_state}

-- Two lists hold the same nodes.
abbrev pub SameNodes : List String → List String → Type 0
SameNodes xs ys = (node : String) → contains xs node ≡ contains ys node

-- A set of nodes.
abbrev pub Nodes : Type 0
Nodes = Quot SameNodes

pub insert-SameNodes :
    (node : String) (xs ys : List String)
    → SameNodes xs ys
    → SameNodes (NodeSet.insert node xs) (NodeSet.insert node ys)
insert-SameNodes node xs ys same other =
    ground (arith, contains-insert node xs other, contains-insert node ys other, same other)

pub remove-SameNodes :
    (node : String) (xs ys : List String)
    → SameNodes xs ys
    → SameNodes (NodeSet.remove node xs) (NodeSet.remove node ys)
remove-SameNodes node xs ys same other =
    ground (arith, contains-remove node xs other, contains-remove node ys other, same other)

pub nonempty-SameNodes : (xs ys : List String) → SameNodes xs ys → is_nonempty xs ≡ is_nonempty ys
nonempty-SameNodes [] [] same = refl
nonempty-SameNodes [] (y ∷ ys) same = nonempty_of_contains [] y (same y ∙ rw ((eq_iff y y).1 refl))
nonempty-SameNodes (x ∷ xs) ys same =
    sym (nonempty_of_contains ys x (sym (same x) ∙ rw ((eq_iff x x).1 refl)))

unfoldable pub with_node : String → Nodes → Nodes
with_node node =
    Quot.lift Quot-set (λ xs. Quot.mk (NodeSet.insert node xs))
      (λ xs ys same. Quot.sound (insert-SameNodes node xs ys same))

unfoldable pub without_node : String → Nodes → Nodes
without_node node =
    Quot.lift Quot-set (λ xs. Quot.mk (NodeSet.remove node xs))
      (λ xs ys same. Quot.sound (remove-SameNodes node xs ys same))

unfoldable pub any_node : Nodes → Bool
any_node = Quot.lift Bool-set is_nonempty nonempty-SameNodes

abbrev pub View : Type 0
View = String × Nodes

abbrev pub view : Pvc → View
view pvc = (state_of pvc, Quot.mk (nodes_of pvc))

-- The state of a volume that was staged, by its nodes.
abbrev pub left_with : Nodes → String
left_with nodes = if any_node nodes then "staged" else "idle"

-- What the abstract machine is asked to do.
pub data Action : Type 0 where
  stage unstage : String → Action
  work_for : Purpose → Action
  leave : Action

-- The steps of the abstract machine.
pub data Move : Action → View → View → Type 0 where
  stage_on :
      (node state : String) (nodes : Nodes)
      → (state ≡ "idle") ⊎ (state ≡ "staged")
      → Move (stage node) (state, nodes) ("staged", with_node node nodes)
  unstage_from :
      (node : String) (nodes : Nodes)
      → Move
          (unstage node)
          ("staged", nodes)
          (left_with (without_node node nodes), without_node node nodes)
  pass :
      (node state : String) (nodes : Nodes)
      → (state == "staged") ≡ false
      → Move (unstage node) (state, nodes) (state, nodes)
  take_for :
      (purpose : Purpose) (nodes : Nodes)
      → Move (work_for purpose) ("idle", nodes) (purpose_state purpose, nodes)
  free_from :
      (purpose : Purpose) (nodes : Nodes)
      → Move (work_for purpose) (purpose_state purpose, nodes) ("idle", nodes)
  stay : (v : View) → Move leave v v

-- Only the state changes.
state-Move :
    (action : Action) (old new : Pvc) (before after : String)
    → (state_of old == before) ≡ true
    → state_of new ≡ after
    → nodes_of new ≡ nodes_of old
    → Move action (before, Quot.mk (nodes_of old)) (after, Quot.mk (nodes_of old))
    → Move action (view old) (view new)
state-Move action old new before after was is nodes step =
    subst (λ state. Move action (state, Quot.mk (nodes_of old)) (view new))
      (sym ((eq_iff (state_of old) before).0 was))
      (subst (λ state. Move action (before, Quot.mk (nodes_of old)) (state, Quot.mk (nodes_of new)))
        (sym is)
        (subst (λ xs. Move action (before, Quot.mk (nodes_of old)) (after, Quot.mk xs)) (sym nodes)
          step))

pub freed-Move :
    (old new : Pvc) (purpose : Purpose)
    → (state_of old == purpose_state purpose) ≡ true
    → state_of new ≡ "idle"
    → nodes_of new ≡ nodes_of old
    → Move (work_for purpose) (view old) (view new)
freed-Move old new purpose was is nodes =
    state-Move (work_for purpose) old new (purpose_state purpose) "idle" was is nodes
      (free_from purpose (Quot.mk (nodes_of old)))

pub taken-Move :
    (pvc : Pvc) (purpose : Purpose)
    → (state_of pvc == "idle") ≡ true
    → Move (work_for purpose) (view pvc) (view (with_state pvc (purpose_state purpose)))
taken-Move pvc purpose idle =
    state-Move (work_for purpose) pvc (with_state pvc (purpose_state purpose)) "idle"
      (purpose_state purpose) idle (rw get-set refl) (rw get-set refl)
      (take_for purpose (Quot.mk (nodes_of pvc)))

pub same-view :
    (old new : Pvc)
    → state_of new ≡ state_of old
    → nodes_of new ≡ nodes_of old
    → view new ≡ view old
same-view old new state nodes =
    ap (λ state. (state, Quot.mk (nodes_of new))) state
    ∙ ap (λ xs. (state_of old, Quot.mk xs)) nodes

module _ (lib : Libraries) (law : IsLawful lib) where
  view-staged :
      (node : String) (pvc : Pvc)
      → IsConsistent pvc
      → IsName node
      → view (staged_on lib node pvc) ≡ ("staged", with_node node (Quot.mk (nodes_of pvc)))
  unfolding with_node
  view-staged node pvc c name =
      let staged = staged_on_lem lib law node pvc c.names in
      ap (λ state. (state, Quot.mk (nodes_of (staged_on lib node pvc))))
        (staged "" "" name refl refl).0
      ∙ ap (λ nodes. ("staged", nodes))
          (Quot.sound λ other.
            (staged other "" name refl refl).1 ∙ sym (contains-insert node (nodes_of pvc) other))

  -- What the removal of nodes leaves of a staged claim.
  left-state :
      (nodes : List String) (pvc : Pvc)
      → state_of pvc ≡ "staged"
      → state_of (without_nodes lib nodes pvc) ≡ (if is_nonempty nodes then "staged" else "idle")
  left-state [] pvc staged = rw get-set refl
  left-state (_ ∷ _) pvc staged = rw get-set staged

  view-unstaged :
      (node : String) (pvc : Pvc)
      → IsConsistent pvc
      → state_of pvc ≡ "staged"
      → view (without_nodes lib (NodeSet.remove node (nodes_of pvc)) pvc) ≡ (
        left_with (without_node node (Quot.mk (nodes_of pvc))),
        without_node node (Quot.mk (nodes_of pvc)),
      )
  unfolding without_node any_node
  view-unstaged node pvc c staged =
      let left = NodeSet.remove node (nodes_of pvc) in
      ap (λ state. (state, Quot.mk (nodes_of (without_nodes lib left pvc))))
        (left-state left pvc staged)
      ∙ ap (λ nodes. (if is_nonempty left then "staged" else "idle", nodes))
          (Quot.sound λ other.
            unstaged_nodes lib law node pvc c.names left other
              (remove-AllNames node (nodes_of pvc) c.names))

  pub Move-unstage :
      (node : String) (pvc : Pvc)
      → IsConsistent pvc
      → Move (unstage node) (view pvc) (view (unstaged_from lib node pvc))
  unfolding unstaged_from
  Move-unstage node pvc c = elim (Bool-cases (state_of pvc == "staged")) [
    | inr other ↦ rw other (pass node (state_of pvc) (Quot.mk (nodes_of pvc)) other)
    | inl staged ↦
        let is_staged = (eq_iff (state_of pvc) "staged").0 staged in
        rw staged (
          subst (Move (unstage node) (view pvc)) (sym (view-unstaged node pvc c is_staged)) (
            subst
              (λ state.
                Move (unstage node) (state, Quot.mk (nodes_of pvc))
                  (
                    left_with (without_node node (Quot.mk (nodes_of pvc))),
                    without_node node (Quot.mk (nodes_of pvc)),
                  ))
              (sym is_staged) (unstage_from node (Quot.mk (nodes_of pvc)))))
  ]

  pub Move-stage :
      (node : String) (pvc : Pvc)
      → IsConsistent pvc
      → IsName node
      → stage_refusal (state_of pvc) ≡ none
      → Move (stage node) (view pvc) (view (staged_on lib node pvc))
  Move-stage node pvc c name accepted =
      subst (Move (stage node) (view pvc)) (sym (view-staged node pvc c name)) (
        stage_on node (state_of pvc) (Quot.mk (nodes_of pvc))
          (accepted_states (state_of pvc) accepted))
