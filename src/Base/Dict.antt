-- ===== src/Base/Dict.antt =====
-- Go's `map[string]string` as an association list. A nil map reads like an empty one.
use mathlib.Core.Bool.{Bool, true, false}
use mathlib.Core.Path.{◌≡◌, refl}
use mathlib.Core.List.{List, [], ◌∷◌}
use Prim.Native.String.{String}
use native.Mathlib.Omega.{arith}
use text.Mathlib.Text.{◌==◌}
use text.Mathlib.TextEquality.{eq_iff}
use subprovisioner.Base.Booleans.{if◌then◌else◌}

abbrev pub Dict : Type 0
Dict = List (String × String)

-- `m[k]`: a missing key reads as the empty text.
abbrev pub get : Dict → String → String
get [] k = ""
get ((j, v) ∷ m) k = if j == k then v else get m k

-- Whether there is a value for the key.
abbrev pub has : Dict → String → Bool
has [] k = false
has ((j, v) ∷ m) k = let rest = has m k in if j == k then true else rest

-- `m[k] = v`
abbrev pub set : Dict → String → String → Dict
set [] k v = (k, v) ∷ []
set ((j, w) ∷ m) k v = if j == k then (k, v) ∷ m else (j, w) ∷ set m k v

-- `delete(m, k)`
abbrev pub delete : Dict → String → Dict
delete [] k = []
delete ((j, w) ∷ m) k = let rest = delete m k in if j == k then rest else (j, w) ∷ rest

pub get-set : (m : Dict) (k j v : String) → get (set m k v) j ≡ (if k == j then v else get m j)
get-set [] k j v = refl
get-set ((i, w) ∷ m) k j v = ground (arith, eq_iff k j, eq_iff i k, eq_iff i j, get-set m k j v)

pub get-delete : (m : Dict) (k j : String) → get (delete m k) j ≡ (if k == j then "" else get m j)
get-delete [] k j = ground arith
get-delete ((i, w) ∷ m) k j = ground (arith, eq_iff k j, eq_iff i k, eq_iff i j, get-delete m k j)
