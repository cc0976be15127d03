-- ===== src/Kube/Ends.antt =====
-- Programs that come to an end against an environment: no polling loop of theirs uses up its rounds.
use subprovisioner.Base.{
  sym, Bool, true, false, Option, none, some, ◌∷◌, if◌then◌else◌, inl, inr, Bool-cases,
}
use mathlib.Core.Path.{subst}
use subprovisioner.Kube.Errors.{Error, Result, ok, err, is_conflict}
use subprovisioner.Kube.Calls.{Call, Reply, event, History, back_off}
use subprovisioner.Kube.Prog.{Prog, ret, fail, unfinished, call, ◌>>=◌, catch, lift, or_fail}
use subprovisioner.Kube.Contract.{Outcome, returned, failed, polling}
use subprovisioner.Kube.Run.{Environment, run, run-bind, resume}
use subprovisioner.Kube.Libraries.{Libraries, IsLawful, Attempts, last, again, or_again}

abbrev pub NotPolling {ℓ} : {A : Type ℓ} → Outcome A → Type 0
NotPolling (returned _) = Unit
NotPolling (failed _) = Unit
NotPolling polling = ⊥

module _ (env : Environment) where
  -- The program returns or fails from every history on.
  abbrev pub Ends {ℓ} : {A : Type ℓ} → Prog A → Type 0
  Ends m = (h : History) → NotPolling (run env h m).0

  pub Ends-fail {ℓ} : (A : Type ℓ) (e : Error) → Ends {A = A} (fail e)
  unfolding run
  Ends-fail A e h = tt

  module _ {ℓ} {A : Type ℓ} where
    pub Ends-ret : (a : A) → Ends (ret a)
    unfolding run
    Ends-ret a h = tt

    pub Ends-call :
        (c : Call) (k : Reply c → Prog A) → ((r : Reply c) → Ends (k r)) → Ends (call c k)
    unfolding run
    Ends-call c k rest h = rest (env h c) (event c (env h c) ∷ h)

    pub Ends-lift : (r : Result A) → Ends (lift r)
    Ends-lift (ok a) = Ends-ret a
    Ends-lift (err e) = Ends-fail A e

    pub Ends-or_fail : (o : Option A) (e : Error) → Ends (or_fail o e)
    Ends-or_fail (some a) e = Ends-ret a
    Ends-or_fail none e = Ends-fail A e

    pub Ends-if : (b : Bool) (x y : Prog A) → Ends x → Ends y → Ends (if b then x else y)
    Ends-if true x y yes_case no_case = yes_case
    Ends-if false x y yes_case no_case = no_case

    catch-NotPolling :
        (m : Prog A) (h : History) → NotPolling (run env h m).0 → NotPolling (run env h (catch m)).0
    unfolding run
    catch-NotPolling (ret a) h ends = tt
    catch-NotPolling (fail e) h ends = tt
    catch-NotPolling unfinished h ends = ends
    catch-NotPolling (call c k) h ends = catch-NotPolling (k (env h c)) (event c (env h c) ∷ h) ends

    pub Ends-catch : (m : Prog A) → Ends m → Ends (catch m)
    Ends-catch m ends h = catch-NotPolling m h (ends h)

  module _ {ℓ κ} {A : Type ℓ} {B : Type κ} where
    resume-NotPolling :
        (f : A → Prog B)
        → ((a : A) → Ends (f a))
        → (o : Outcome A) (g : History) → NotPolling o
        → NotPolling (resume env f o g).0
    resume-NotPolling f rest (returned a) g _ = rest a g
    resume-NotPolling f rest (failed e) g _ = tt
    resume-NotPolling f rest polling g stuck = elim stuck [ ]

    -- From one history on.
    pub bind-NotPolling :
        (h : History) (m : Prog A) (f : A → Prog B)
        → NotPolling (run env h m).0
        → ((a : A) → Ends (f a))
        → NotPolling (run env h (m >>= f)).0
    bind-NotPolling h m f first rest =
        subst (λ (o : Outcome B × History). NotPolling o.0) (sym (run-bind env f m h))
          (resume-NotPolling f rest (run env h m).0 (run env h m).1 first)

    pub Ends-bind : (m : Prog A) (f : A → Prog B) → Ends m → ((a : A) → Ends (f a)) → Ends (m >>= f)
    Ends-bind m f first rest h = bind-NotPolling h m f (first h) rest

  or_again-NotPolling :
      (later : Prog (Unit {0}))
      → Ends later
      → (attempt : Prog (Unit {0})) (h : History) → NotPolling (run env h attempt).0
      → NotPolling (run env h (or_again attempt later)).0
  unfolding run or_again
  or_again-NotPolling later ends (ret a) h first = tt
  or_again-NotPolling later ends (fail e) h first = elim (Bool-cases (is_conflict e)) [
    | inl c ↦ rw c (ends (event back_off (env h back_off) ∷ h))
    | inr c ↦ rw c tt
  ]
  or_again-NotPolling later ends unfinished h first = first
  or_again-NotPolling later ends (call c k) h first =
      or_again-NotPolling later ends (k (env h c)) (event c (env h c) ∷ h) first

  Ends-Attempts :
      {attempt whole : Prog (Unit {0})} → Ends attempt → Attempts attempt whole → Ends whole
  Ends-Attempts first last h = first h
  Ends-Attempts {attempt} first (again {later} more) h =
      or_again-NotPolling later (Ends-Attempts first more) attempt h (first h)

  -- The retry helper makes a finite number of attempts.
  pub Ends-retry :
      (lib : Libraries)
      → IsLawful lib
      → (attempt : Prog (Unit {0})) → Ends attempt
      → Ends (lib.retry_on_conflict attempt)
  Ends-retry lib law attempt first = Ends-Attempts first (law.retries attempt)
