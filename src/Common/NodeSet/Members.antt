-- ===== src/Common/NodeSet/Members.antt =====
-- What is in a set after an insertion and a removal.
use subprovisioner.Base.{
  String, ◌≡◌, refl, ◌==◌, not, ◌&&◌, ◌||◌, List, [], ◌∷◌, contains, arith, eq_iff,
}
use subprovisioner.Common.NodeSet.{insert, remove, insert_all}

pub contains-insert :
    (x : String) (set : List String) (y : String)
    → contains (insert x set) y ≡ (x == y || contains set y)
unfolding insert
contains-insert x [] y = ground arith
contains-insert x (z ∷ set) y =
    ground (arith, eq_iff z x, eq_iff z y, eq_iff x y, contains-insert x set y)

pub contains-remove :
    (x : String) (set : List String) (y : String)
    → contains (remove x set) y ≡ (not (x == y) && contains set y)
unfolding remove
contains-remove x [] y = ground arith
contains-remove x (z ∷ set) y =
    ground (arith, eq_iff z x, eq_iff z y, eq_iff x y, contains-remove x set y)

pub contains-insert_all :
    (xs set : List String) (y : String)
    → contains (insert_all xs set) y ≡ (contains xs y || contains set y)
contains-insert_all [] set y = refl
contains-insert_all (x ∷ xs) set y =
    ground (arith, contains-insert_all xs (insert x set) y, contains-insert x set y)
