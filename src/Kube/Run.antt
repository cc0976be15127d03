-- ===== src/Kube/Run.antt =====
-- A program run against an environment that answers each call, by the calls that came before.
use subprovisioner.Base.{◌≡◌, refl, ◌∷◌, inr}
use subprovisioner.Kube.Calls.{Call, Reply, Event, event, History}
use subprovisioner.Kube.Prog.{Prog, ret, fail, unfinished, call, ◌>>=◌}
use subprovisioner.Kube.Contract.{Outcome, returned, failed, polling, Meets, Saw}

abbrev pub Environment : Type 0
Environment = (h : History) (c : Call) → Reply c

-- The outcome and the history at the end.
unfoldable pub run {ℓ} : {A : Type ℓ} → Environment → History → Prog A → Outcome A × History
run env h (ret a) = (returned a, h)
run env h (fail e) = (failed e, h)
run env h unfinished = (polling, h)
run env h (call c k) = let r = env h c in run env (event c r ∷ h) (k r)

-- What is promised of a program holds of each of its runs.
pub Meets-run {ℓ} :
    {A : Type ℓ} (Allowed : History → Call → Type 0) (Post : History → Outcome A → Type 0)
    (env : Environment) (h : History) (m : Prog A)
    → Meets Allowed Post h m
    → Post (run env h m).1 (run env h m).0
unfolding Meets run
Meets-run Allowed Post env h (ret a) promised = promised
Meets-run Allowed Post env h (fail e) promised = promised
Meets-run Allowed Post env h unfinished promised = promised
Meets-run Allowed Post env h (call c k) (allowed, promised) =
    let r = env h c in Meets-run Allowed Post env (event c r ∷ h) (k r) (promised r)

module _ {ℓ κ} {A : Type ℓ} {B : Type κ} (env : Environment) where
  -- What a chain makes of its first part's end.
  abbrev pub resume : (A → Prog B) → Outcome A → History → Outcome B × History
  resume f (returned a) h = run env h (f a)
  resume f (failed e) h = (failed e, h)
  resume f polling h = (polling, h)

  pub run-bind :
      (f : A → Prog B) (m : Prog A) (h : History)
      → run env h (m >>= f) ≡ resume f (run env h m).0 (run env h m).1
  unfolding run
  run-bind f (ret a) h = refl
  run-bind f (fail e) h = refl
  run-bind f unfinished h = refl
  run-bind f (call c k) h = run-bind f (k (env h c)) (event c (env h c) ∷ h)

-- A run only adds to the history.
pub run-Saw {ℓ} :
    {A : Type ℓ} (P : Event → Type 0) (env : Environment) (h : History) (m : Prog A)
    → Saw P h
    → Saw P (run env h m).1
unfolding run
run-Saw P env h (ret a) seen = seen
run-Saw P env h (fail e) seen = seen
run-Saw P env h unfinished seen = seen
run-Saw P env h (call c k) seen = run-Saw P env (event c (env h c) ∷ h) (k (env h c)) (inr seen)
