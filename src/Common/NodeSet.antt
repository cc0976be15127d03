-- ===== src/Common/NodeSet.antt =====
-- pkg/csiplugin/common/pvc.go: the set of node names in an annotation, as a list of texts that are
-- joined by commas.
pub mod Members
pub mod Splitting
use Prim.Native.Char.{Char, code}
use subprovisioner.Base.{
  String, ◌<>◌, ◌==◌, Bool, true, false, List, [], ◌∷◌, nat_eq, if◌then◌else◌,
}
use subprovisioner.Kube.Libraries.{Libraries}

abbrev cons_first : Char → List String → List String
cons_first c [] = String.◌∷◌ c "" ∷ []
cons_first c (part ∷ parts) = String.◌∷◌ c part ∷ parts

-- `strings.Split(text, ",")`
unfoldable pub split : String → List String
split String.[] = "" ∷ []
split (String.◌∷◌ c text) =
    let rest = split text in if nat_eq (code c) 44 then "" ∷ rest else cons_first c rest

-- The keys of a set, each once; `set[item] = struct{}{}`.
unfoldable pub insert : String → List String → List String
insert item [] = item ∷ []
insert item (other ∷ set) = if other == item then other ∷ set else other ∷ insert item set

-- `delete(set, item)`
unfoldable pub remove : String → List String → List String
remove item [] = []
remove item (other ∷ set) =
    let rest = remove item set in if other == item then rest else other ∷ rest

abbrev insert_all : List String → List String → List String
insert_all [] set = set
insert_all (item ∷ items) set = insert_all items (insert item set)

unfoldable pub string_list_to_set : String → List String
unfolding split insert
string_list_to_set list = if list == "" then [] else insert_all (split list) []

-- The loop of `setToStringList`; the flag is `empty`.
write_items : Bool → List String → String
write_items empty [] = ""
write_items true (item ∷ items) = item <> write_items false items
write_items false (item ∷ items) = "," <> (item <> write_items false items)

-- The order is that in which Go walks the map.
unfoldable pub set_to_string_list : Libraries → List String → String
unfolding write_items
set_to_string_list lib set = write_items true (lib.map_order set)
