-- ===== src/Common/Pvc/Consistency.antt =====
-- When the state in a claim's annotations and its list of nodes agree.
use subprovisioner.Base.{
  String, ◌≡◌, refl, ◌∙◌, ◌==◌, Bool, true, false, List, [], ◌∷◌, contains, eq_iff, Bool-cases, inl,
  inr, sym,
}
use subprovisioner.Base.Dict.{get-set, get-delete}
use subprovisioner.Kube.Objects.{Pvc}
use subprovisioner.Kube.Libraries.{Libraries, IsLawful}
use subprovisioner.Common.NodeSet
use subprovisioner.Common.NodeSet.Members.{contains-insert}
use subprovisioner.Common.NodeSet.Splitting.{IsName, AllNames}
use subprovisioner.Common.Pvc.{staged_on, without_nodes, unstaged_from, with_state}
use subprovisioner.Common.Pvc.Nodes.{
  state_of, nodes_of, staged_on_lem, unstaged_nodes, remove-AllNames, insert-AllNames,
}

abbrev pub is_nonempty : List String → Bool
is_nonempty [] = false
is_nonempty (_ ∷ _) = true

-- A claim is staged just when it lists a node, and it lists only names.
pub record IsConsistent (pvc : Pvc) : Type 0 where
  pub names : AllNames (nodes_of pvc)
  pub staged_nodes : (state_of pvc == "staged") ≡ is_nonempty (nodes_of pvc)

pub nonempty_of_contains :
    (set : List String) (item : String) → contains set item ≡ true → is_nonempty set ≡ true
nonempty_of_contains [] item h = h
nonempty_of_contains (first ∷ rest) item h = refl

AllNames-same :
    (set other : List String)
    → ((item : String) → contains set item ≡ contains other item)
    → AllNames other
    → AllNames set
AllNames-same set other same names item h = names item (sym (same item) ∙ h)

nonempty_of_same :
    (first : String) (rest set : List String)
    → ((item : String) → contains set item ≡ contains (first ∷ rest) item)
    → is_nonempty set ≡ true
nonempty_of_same first rest set same =
    nonempty_of_contains set first (same first ∙ rw ((eq_iff first first).1 refl))

-- A change of the state alone, between states that are not the staged one.
pub with_state-IsConsistent :
    (new_state : String) (pvc : Pvc)
    → (new_state == "staged") ≡ false
    → (state_of pvc == "staged") ≡ false
    → IsConsistent pvc
    → IsConsistent (with_state pvc new_state)
with_state-IsConsistent new_state pvc new old c = record {
  names = rw get-set c.names;
  staged_nodes = rw (get-set, get-set) (new ∙ sym old ∙ c.staged_nodes);
}

module _ (lib : Libraries) (law : IsLawful lib) (node : String) (pvc : Pvc)
    (c : IsConsistent pvc) where
  staged_same :
      IsName node
      → (item : String)
      → contains (nodes_of (staged_on lib node pvc)) item
        ≡ contains (NodeSet.insert node (nodes_of pvc)) item
  staged_same name item =
      (staged_on_lem lib law node pvc c.names item "" name refl refl).1
      ∙ sym (contains-insert node (nodes_of pvc) item)

  pub staged_on-IsConsistent : IsName node → IsConsistent (staged_on lib node pvc)
  staged_on-IsConsistent name = record {
    names = AllNames-same _ _ (staged_same name) (insert-AllNames node (nodes_of pvc) name c.names);
    staged_nodes = rw (staged_on_lem lib law node pvc c.names node "" name refl refl).0 (
        sym (
          nonempty_of_contains _ node
            (staged_same name node ∙ rw contains-insert (rw ((eq_iff node node).1 refl)))));
  }

  without_nodes-IsConsistent :
      (nodes : List String)
      → (state_of pvc == "staged") ≡ true
      → AllNames nodes
      → IsConsistent (without_nodes lib nodes pvc)
  without_nodes-IsConsistent [] staged names = record {
    names =
        AllNames-same _ [] (λ item. unstaged_nodes lib law node pvc c.names [] item names) names;
    staged_nodes = rw (get-set, get-set, get-delete) (unfold NodeSet.string_list_to_set in refl);
  }
  without_nodes-IsConsistent (first ∷ rest) staged names =
      let same =
        λ (item : String). unstaged_nodes lib law node pvc c.names (first ∷ rest) item names in
      record {
        names = AllNames-same _ (first ∷ rest) same names;
        staged_nodes = rw get-set (staged ∙ sym (nonempty_of_same first rest _ same));
      }

  pub unstaged_from-IsConsistent : IsConsistent (unstaged_from lib node pvc)
  unfolding unstaged_from
  unstaged_from-IsConsistent = elim (Bool-cases (state_of pvc == "staged")) [
    | inl staged ↦ rw staged (
        without_nodes-IsConsistent (NodeSet.remove node (nodes_of pvc)) staged
          (remove-AllNames node (nodes_of pvc) c.names))
    | inr other ↦ rw other c
  ]
