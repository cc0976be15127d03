-- ===== src/Common/NodeSet/Splitting.antt =====
-- A list of names that is joined by commas and split again.
use Prim.Native.Char.{code}
use text.Mathlib.TextLemmas.{nil-append, cons-append, cons-ne-nil}
use subprovisioner.Base.{
  String, ◌<>◌, ◌≡◌, refl, ◌∙◌, ◌==◌, true, false, List, [], ◌∷◌, All, contains, nat_eq, arith,
  eq_iff, Bool-cases, inl, inr,
}
use subprovisioner.Kube.Libraries.{Libraries, IsLawful}
use subprovisioner.Common.NodeSet.{split, string_list_to_set, write_items, set_to_string_list}
use subprovisioner.Common.NodeSet.Members.{contains-insert_all}

abbrev LacksComma : String → Type 0
LacksComma String.[] = Unit
LacksComma (String.◌∷◌ c s) = (nat_eq (code c) 44 ≡ false) × LacksComma s

-- A name that can stand in the list: not empty and without a comma.
abbrev pub IsName : String → Type 0
IsName s = ((s == "") ≡ false) × LacksComma s

-- Every item of a set is such a name.
abbrev pub AllNames : List String → Type 0
AllNames set = (item : String) → contains set item ≡ true → IsName item

split-write_items :
    (items : List String) (item : String)
    → LacksComma item
    → All LacksComma items
    → split (item <> write_items false items) ≡ item ∷ items
unfolding split write_items
split-write_items [] String.[] h hs = refl
split-write_items (next ∷ items) String.[] h (hn, hs) =
    rw (nil-append, cons-append, nil-append) (rw (split-write_items items next hn hs))
split-write_items items (String.◌∷◌ c item) (hc, h) hs =
    rw (cons-append, split) (rw (hc, split-write_items items item h hs))

-- The names of a set, item by item.
AllNames-All : (set : List String) → AllNames set → All IsName set
AllNames-All [] names = tt
AllNames-All (item ∷ set) names = (
  names item (rw ((eq_iff item item).1 refl)),
  AllNames-All set (λ other h. names other (ground (arith, h))),
)

All-LacksComma : (set : List String) → All IsName set → All LacksComma set
All-LacksComma [] _ = tt
All-LacksComma (item ∷ set) (name, names) = (name.1, All-LacksComma set names)

-- A joined list of names is not empty.
write_items_nonempty :
    (item : String) (items : List String)
    → IsName item
    → ((item <> write_items false items) == "") ≡ false
write_items_nonempty String.[] items (nonempty, _) = cc
write_items_nonempty (String.◌∷◌ c item) items name =
    rw cons-append (elim (Bool-cases (String.◌∷◌ c (item <> write_items false items) == "")) [
      | inl e ↦ absurd (cons-ne-nil c _ ((eq_iff _ "").0 e))
      | inr e ↦ e
    ])

contains-string_list_to_set :
    (items : List String) (y : String)
    → All IsName items
    → contains (string_list_to_set (write_items true items)) y ≡ contains items y
unfolding string_list_to_set write_items
contains-string_list_to_set [] y _ = refl
contains-string_list_to_set (item ∷ items) y (name, names) =
    rw
      (
        write_items_nonempty item items name,
        split-write_items items item name.1 (All-LacksComma items names),
        contains-insert_all,
      )
      (ground arith)

module _ (lib : Libraries) (law : IsLawful lib) where
  -- A set of names, written in the order of a walk over the map and read back, has the same items.
  pub string_list_to_set-set_to_string_list :
      (set : List String) (y : String)
      → AllNames set
      → contains (string_list_to_set (set_to_string_list lib set)) y ≡ contains set y
  unfolding set_to_string_list
  string_list_to_set-set_to_string_list set y names =
      contains-string_list_to_set (lib.map_order set) y
        (AllNames-All (lib.map_order set) (λ item h. names item (rw (law.visits set item) at h)))
      ∙ law.visits set y
