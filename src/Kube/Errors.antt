-- ===== src/Kube/Errors.antt =====
-- Go's `error` values, as far as the plugin tells them apart.
use subprovisioner.Base.{◌≡◌, refl, ◌⊎◌, inl, inr, String, Bool, true, false, Option, none, some}

-- gRPC status codes that the plugin uses.
pub data Code : Type 0 where
  invalid_argument failed_precondition unknown unimplemented : Code

-- The reasons of an API server's error that `k8serrors.Is...` and the retry helper ask for.
pub data Reason : Type 0 where
  not_found already_exists conflict other_reason : Reason

-- `status` is `status.Errorf`, `plain` is `errors.New`, `api` comes from the API server, `path_missing`
-- is what `errors.Is(err, os.ErrNotExist)` accepts, and `done` is `ctx.Err()`.
pub data Error : Type 0 where
  status : Code → String → Error
  plain : String → Error
  api : Reason → Error
  path_missing : Error
  path_error : String → Error
  done : String → Error

pub data Result {ℓ} (A : Type ℓ) : Type ℓ where
  ok : A → Result A
  err : Error → Result A

abbrev pub IsError {ℓ} : {A : Type ℓ} → Result A → Type 0
IsError (ok _) = ⊥
IsError (err _) = Unit

-- To split on a computed result and keep the equation.
pub Result-cases {ℓ} :
    {A : Type ℓ} (r : Result A) → ((a : A) × (r ≡ ok a)) ⊎ ((e : Error) × (r ≡ err e))
Result-cases (ok a) = inl (a, refl)
Result-cases (err e) = inr (e, refl)

abbrev pub is_not_found : Error → Bool
is_not_found (api not_found) = true
is_not_found _ = false

abbrev pub is_already_exists : Error → Bool
is_already_exists (api already_exists) = true
is_already_exists _ = false

abbrev pub is_conflict : Error → Bool
is_conflict (api conflict) = true
is_conflict _ = false

abbrev pub is_not_exist : Error → Bool
is_not_exist path_missing = true
is_not_exist _ = false

-- The `err` of a call whose value is not looked at.
abbrev pub error_of {ℓ} : {A : Type ℓ} → Result A → Option Error
error_of (ok a) = none
error_of (err e) = some e
