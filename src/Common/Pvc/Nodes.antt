-- ===== src/Common/Pvc/Nodes.antt =====
-- `StagePvcOnNode` and `UnstagePvcFromNode`: what they write into a claim.
use mathlib.Core.Path.{subst}
use subprovisioner.Base.{
  String, ◌≡◌, refl, ◌==◌, true, false, not, ◌&&◌, ◌||◌, List, [], ◌∷◌, contains, arith, eq_iff,
  Bool-cases, inl, inr, ◌∙◌,
}
use subprovisioner.Base.Dict
use subprovisioner.Base.Dict.{get-set, get-delete}
use subprovisioner.Kube.Objects.{Pvc}
use subprovisioner.Kube.Libraries.{Libraries, IsLawful}
use subprovisioner.Common.NodeSet
use subprovisioner.Common.NodeSet.Members.{contains-insert, contains-remove}
use subprovisioner.Common.NodeSet.Splitting.{
  IsName, AllNames, string_list_to_set-set_to_string_list,
}
use subprovisioner.Common.Pvc.{state_key, nodes_key, staged_on, without_nodes, unstaged_from}

abbrev pub state_of : Pvc → String
state_of pvc = Dict.get pvc.annotations state_key

abbrev pub nodes_of : Pvc → List String
nodes_of pvc = NodeSet.string_list_to_set (Dict.get pvc.annotations nodes_key)

pub insert-AllNames :
    (node : String) (set : List String)
    → IsName node
    → AllNames set
    → AllNames (NodeSet.insert node set)
insert-AllNames node set name names item h = elim (Bool-cases (node == item)) [
  | inl same ↦ subst IsName ((eq_iff node item).0 same) name
  | inr other ↦ names item (ground (arith, contains-insert node set item))
]

pub remove-AllNames :
    (node : String) (set : List String) → AllNames set → AllNames (NodeSet.remove node set)
remove-AllNames node set names item h = names item (ground (arith, contains-remove node set item))

module _ (lib : Libraries) (law : IsLawful lib) (node : String) (pvc : Pvc)
    (names : AllNames (nodes_of pvc)) where
  -- On a claim that lists only names, `StagePvcOnNode` with a name writes the staged state, adds its
  -- node to the nodes and takes none away, and leaves every annotation but these two as it is.
  pub staged_on_lem :
      (item other : String)
      → IsName node
      → (state_key == other) ≡ false
      → (nodes_key == other) ≡ false
      → (state_of (staged_on lib node pvc) ≡ "staged")
        × (contains (nodes_of (staged_on lib node pvc)) item
            ≡ (node == item || contains (nodes_of pvc) item))
        × (Dict.get (staged_on lib node pvc).annotations other ≡ Dict.get pvc.annotations other)
  unfolding staged_on
  staged_on_lem item other name state nodes = (
    rw (get-set, get-set) refl,
    rw get-set (
        string_list_to_set-set_to_string_list lib law _ item
          (insert-AllNames node (nodes_of pvc) name names)
        ∙ contains-insert node (nodes_of pvc) item),
    rw (get-set, get-set) (rw (state, nodes)),
  )

  pub unstaged_nodes :
      (nodes : List String) (item : String)
      → AllNames nodes
      → contains (nodes_of (without_nodes lib nodes pvc)) item ≡ contains nodes item
  unstaged_nodes [] item _ = rw (get-set, get-delete) (unfold NodeSet.string_list_to_set in refl)
  unstaged_nodes (first ∷ rest) item all =
      rw get-set (string_list_to_set-set_to_string_list lib law (first ∷ rest) item all)

  -- On a staged claim that lists only names, `UnstagePvcFromNode` takes its node out of the nodes and
  -- no other.
  pub unstaged_from_lem :
      (item : String)
      → (state_of pvc == "staged") ≡ true
      → contains (nodes_of (unstaged_from lib node pvc)) item
        ≡ (not (node == item) && contains (nodes_of pvc) item)
  unfolding unstaged_from
  unstaged_from_lem item staged = rw staged (
      unstaged_nodes (NodeSet.remove node (nodes_of pvc)) item
        (remove-AllNames node (nodes_of pvc) names)
      ∙ contains-remove node (nodes_of pvc) item)
