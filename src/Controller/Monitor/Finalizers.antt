-- ===== src/Controller/Monitor/Finalizers.antt =====
-- Taking the cleanup finalizer out of a list.
use subprovisioner.Base.{
  ℕ, ◌≤◌, ltb, ◌-◌, ◌+◌, arith, String, ◌≡◌, refl, false, ◌==◌, Bool-cases, List, [], ◌∷◌,
  if◌then◌else◌, contains, inl, inr, eq_iff,
}
use subprovisioner.Controller.Monitor.{cleanup, has_finalizer, remove_finalizer}

-- How often the finalizer occurs.
abbrev pub count : List String → ℕ
count [] = 0
count (finalizer ∷ finalizers) =
    let rest = count finalizers in if finalizer == cleanup then 1 + rest else rest

remove_finalizer-others :
    (finalizers : List String) (other : String)
    → (cleanup == other) ≡ false
    → contains (remove_finalizer finalizers) other ≡ contains finalizers other
unfolding remove_finalizer
remove_finalizer-others [] other differs = refl
remove_finalizer-others (finalizer ∷ finalizers) other differs =
    elim (Bool-cases (finalizer == cleanup)) [
      | inl here ↦ rw (here, (eq_iff finalizer cleanup).0 here, differs) refl
      | inr elsewhere ↦ rw (elsewhere, remove_finalizer-others finalizers other differs) refl
    ]

remove_finalizer-count :
    (finalizers : List String) → count (remove_finalizer finalizers) ≡ count finalizers - 1
unfolding remove_finalizer
remove_finalizer-count [] = refl
remove_finalizer-count (finalizer ∷ finalizers) = elim (Bool-cases (finalizer == cleanup)) [
  | inl here ↦ rw here (omega arith)
  | inr elsewhere ↦ rw elsewhere (rw (elsewhere, remove_finalizer-count finalizers) refl)
]

has_finalizer-count :
    (finalizers : List String) → has_finalizer finalizers ≡ ltb 0 (count finalizers)
unfolding has_finalizer
has_finalizer-count [] = refl
has_finalizer-count (finalizer ∷ finalizers) = elim (Bool-cases (finalizer == cleanup)) [
  | inl here ↦ rw here (ground arith)
  | inr elsewhere ↦ rw (elsewhere, has_finalizer-count finalizers) refl
]

-- The removal keeps every finalizer that is not the cleanup finalizer and adds none, and a list that
-- has the cleanup finalizer at most once does not have it afterwards.
pub remove_finalizer_lem :
    (finalizers : List String)
    → ((other : String)
        → (cleanup == other) ≡ false
        → contains (remove_finalizer finalizers) other ≡ contains finalizers other)
      × (count finalizers ≤ 1 → has_finalizer (remove_finalizer finalizers) ≡ false)
remove_finalizer_lem finalizers = (
  remove_finalizer-others finalizers,
  λ once.
      let left = remove_finalizer-count finalizers in
      rw (has_finalizer-count (remove_finalizer finalizers)) (ground arith),
)
