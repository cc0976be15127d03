-- ===== src/Common/Pvc/Changes.antt =====
-- What taking, staging and unstaging make of a claim, by its state, its nodes and everything else.
use subprovisioner.Base.{
  String, ◌≡◌, ◌⊎◌, refl, ◌∙◌, ◌==◌, true, false, not, ◌&&◌, ◌||◌, none, List, [], ◌∷◌, contains,
  arith, eq_iff, ◌<>◌, inl, inr, Bool-cases,
}
use subprovisioner.Base.Dict
use subprovisioner.Base.Dict.{get-set, get-delete}
use subprovisioner.Kube.Objects.{Pvc}
use subprovisioner.Kube.Libraries.{Libraries, IsLawful}
use subprovisioner.Common.NodeSet
use subprovisioner.Common.NodeSet.Members.{contains-remove}
use subprovisioner.Common.NodeSet.Splitting.{IsName, AllNames}
use subprovisioner.Common.Pvc.{
  stage_refusal, staged_on, unstaged_from, without_nodes, with_state, is_set,
}
use subprovisioner.Common.Pvc.Nodes.{
  state_of, nodes_of, staged_on_lem, unstaged_nodes, remove-AllNames,
}

abbrev pub annotation : String → Pvc → String
annotation suffix pvc = Dict.get pvc.annotations ("subprovisioner.gitlab.io" <> suffix)

-- Only the annotations change, and of those only the plugin's state and list of nodes.
pub record Touches (old new : Pvc) : Type 0 where
  pub only_annotations : new ≡ record old { annotations = new.annotations }
  pub others :
      (other : String)
      → ("subprovisioner.gitlab.io/state" == other) ≡ false
      → ("subprovisioner.gitlab.io/staged-on-nodes" == other) ≡ false
      → Dict.get new.annotations other ≡ Dict.get old.annotations other

-- An idle claim, which is not being deleted, gets the state and keeps its nodes.
pub record Takes (state : String) (old new : Pvc) : Type 0 where
  pub touches : Touches old new
  pub alive : is_set old.deletion_timestamp ≡ false
  pub was_idle : annotation "/state" old ≡ "idle"
  pub is : annotation "/state" new ≡ state
  pub nodes : annotation "/staged-on-nodes" new ≡ annotation "/staged-on-nodes" old

-- An idle or staged claim, which is not being deleted, is staged and lists the node too.
pub record Stages (node : String) (old new : Pvc) : Type 0 where
  pub touches : Touches old new
  pub alive : is_set old.deletion_timestamp ≡ false
  pub was : (annotation "/state" old ≡ "idle") ⊎ (annotation "/state" old ≡ "staged")
  pub is : annotation "/state" new ≡ "staged"
  pub lists :
      AllNames (nodes_of old)
      → (other : String)
      → contains (nodes_of new) other ≡ (node == other || contains (nodes_of old) other)

-- It is staged and lists a node, or is idle and lists none.
abbrev pub IsLeft : Pvc → Type 0
IsLeft new =
    ((annotation "/state" new ≡ "staged")
      × ((node : String) × (contains (nodes_of new) node ≡ true)))
    ⊎ ((annotation "/state" new ≡ "idle")
        × ((node : String) → contains (nodes_of new) node ≡ false))

-- A staged claim loses the node, and is idle if it lists no other; any other claim stays.
pub record Unstages (node : String) (old new : Pvc) : Type 0 where
  pub touches : Touches old new
  pub other_state : (annotation "/state" old == "staged") ≡ false → new ≡ old
  pub lists :
      (annotation "/state" old == "staged") ≡ true
      → AllNames (nodes_of old)
      → ((other : String)
          → contains (nodes_of new) other ≡ (not (node == other) && contains (nodes_of old) other))
        × IsLeft new

module _ (state : String) (pvc : Pvc) where
  pub taken-Takes :
      is_set pvc.deletion_timestamp ≡ false
      → (state_of pvc == "idle") ≡ true
      → Takes state pvc (with_state pvc state)
  taken-Takes alive idle = record {
    touches = record {
      only_annotations = refl;
      others = λ other apart _. rw get-set (rw apart refl);
    };
    alive = alive;
    was_idle = (eq_iff (state_of pvc) "idle").0 idle;
    is = rw get-set refl;
    nodes = rw get-set refl;
  }

-- The states that staging does not refuse.
pub accepted_states :
    (state : String) → stage_refusal state ≡ none → (state ≡ "idle") ⊎ (state ≡ "staged")
unfolding stage_refusal
accepted_states state accepted = elim (Bool-cases (state == "idle")) [
  | inl idle ↦ inl ((eq_iff state "idle").0 idle)
  | inr busy ↦ elim (Bool-cases (state == "staged")) [
    | inl staged ↦ inr ((eq_iff state "staged").0 staged)
    | inr other ↦ ground (arith, accepted, busy, other)
  ]
]

module _ (lib : Libraries) (law : IsLawful lib) (node : String) (pvc : Pvc) where
  pub staged-Stages :
      IsName node
      → is_set pvc.deletion_timestamp ≡ false
      → stage_refusal (state_of pvc) ≡ none
      → Stages node pvc (staged_on lib node pvc)
  unfolding staged_on
  staged-Stages proper alive accepted = record {
    touches = record {
      only_annotations = refl;
      others = λ other state nodes. rw (get-set, get-set) (rw (state, nodes) refl);
    };
    alive = alive;
    was = accepted_states (state_of pvc) accepted;
    is = rw (get-set, get-set) refl;
    lists = λ names other. (staged_on_lem lib law node pvc names other "" proper refl refl).1;
  }

  without-Touches : (nodes : List String) → Touches pvc (without_nodes lib nodes pvc)
  without-Touches [] = record {
    only_annotations = refl;
    others = λ other state nodes. rw (get-set, get-delete) (rw (state, nodes) refl);
  }
  without-Touches (_ ∷ _) = record {
    only_annotations = refl;
    others = λ other state nodes. rw get-set (rw nodes refl);
  }

  without-IsLeft :
      (nodes : List String)
      → AllNames (nodes_of pvc)
      → AllNames nodes
      → state_of pvc ≡ "staged"
      → IsLeft (without_nodes lib nodes pvc)
  without-IsLeft [] old_names names staged = inr (
    rw get-set refl,
    λ other. rw (get-set, get-delete) (unfold NodeSet.string_list_to_set in refl),
  )
  without-IsLeft (first ∷ rest) old_names names staged = inl (
    rw get-set staged,
    (
      first,
      unstaged_nodes lib law node pvc old_names (first ∷ rest) first names
          ∙ rw ((eq_iff first first).1 refl) refl,
    ),
  )

  pub unstaged-Unstages : Unstages node pvc (unstaged_from lib node pvc)
  unfolding unstaged_from
  unstaged-Unstages = elim (Bool-cases (state_of pvc == "staged")) [
    | inr other ↦ rw other (record {
      touches = record { only_annotations = refl; others = λ _ _ _. refl };
      other_state = λ _. refl;
      lists = λ staged. cc;
    })
    | inl staged ↦ rw staged (
        let nodes = NodeSet.remove node (nodes_of pvc) in
        record {
          touches = without-Touches nodes;
          other_state = λ other. cc;
          lists = λ _ names. (
            λ other.
                unstaged_nodes lib law node pvc names nodes other
                  (remove-AllNames node (nodes_of pvc) names)
                ∙ contains-remove node (nodes_of pvc) other,
            without-IsLeft nodes names (remove-AllNames node (nodes_of pvc) names)
                ((eq_iff (state_of pvc) "staged").0 staged),
          );
        })
  ]
