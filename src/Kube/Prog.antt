-- ===== src/Kube/Prog.antt =====
-- A program that calls out, as the tree of its calls. An `error` result ends a chain of steps, and
-- `unfinished` stands for a polling loop that has used up its rounds.
use subprovisioner.Base.{Option, none, some}
use subprovisioner.Kube.Errors.{Error, Result, ok, err}
use subprovisioner.Kube.Calls.{Call, Reply}

pub data Prog {ℓ} (A : Type ℓ) : Type ℓ where
  ret : A → Prog A
  fail : Error → Prog A
  unfinished : Prog A
  call : (c : Call) → (Reply c → Prog A) → Prog A

infixl 5 ◌>>=◌ ◌>>◌
abbrev pub ◌>>=◌ {ℓ κ} : {A : Type ℓ} {B : Type κ} → Prog A → (A → Prog B) → Prog B
ret a >>= f = f a
fail e >>= f = fail e
unfinished >>= f = unfinished
call c k >>= f = call c (λ r. k r >>= f)

abbrev pub ◌>>◌ {ℓ} : {B : Type ℓ} → Prog (Unit {0}) → Prog B → Prog B
m >> k = m >>= λ _. k

-- The error as a value, for code that looks at `err` before it returns.
abbrev pub catch {ℓ} : {A : Type ℓ} → Prog A → Prog (Result A)
catch (ret a) = ret (ok a)
catch (fail e) = ret (err e)
catch unfinished = unfinished
catch (call c k) = call c (λ r. catch (k r))

abbrev pub lift {ℓ} : {A : Type ℓ} → Result A → Prog A
lift (ok a) = ret a
lift (err e) = fail e

-- `if !found { return err }`
abbrev pub or_fail {ℓ} : {A : Type ℓ} → Option A → Error → Prog A
or_fail none e = fail e
or_fail (some a) e = ret a
