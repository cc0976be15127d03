-- ===== src/Kube/Contract.antt =====
-- What holds of a program whatever the answers are: which calls it may make at which point of its
-- history, and what its history and its outcome are when it ends.
use subprovisioner.Base.{
  ◌≡◌, refl, ◌⊎◌, Bool, true, false, Option, none, some, [], ◌∷◌, inl, inr, if◌then◌else◌,
}
use subprovisioner.Kube.Errors.{Error, Result, ok, err}
use subprovisioner.Kube.Calls.{Call, Reply, Event, event, History}
use subprovisioner.Kube.Prog.{Prog, ret, fail, unfinished, call, ◌>>=◌, catch, lift, or_fail}

pub data Outcome {ℓ} (A : Type ℓ) : Type ℓ where
  returned : A → Outcome A
  failed : Error → Outcome A
  polling : Outcome A

-- Something that happened at some point of a history.
abbrev pub Saw : (Event → Type 0) → History → Type 0
Saw P [] = ⊥
Saw P (e ∷ h) = P e ⊎ Saw P h

pub Saw-map : (P Q : Event → Type 0) → ((e : Event) → P e → Q e) → (h : History) → Saw P h → Saw Q h
Saw-map P Q each [] seen = elim seen [ ]
Saw-map P Q each (e ∷ h) (inl now) = inl (each e now)
Saw-map P Q each (e ∷ h) (inr before) = inr (Saw-map P Q each h before)

-- A property of histories that no further event takes away.
abbrev pub Lasting : (History → Type 0) → Type 0
Lasting Keeps = (h : History) (e : Event) → Keeps h → Keeps (e ∷ h)

module _ {ℓ} {A : Type ℓ} where
  -- A program, run behind a history: every call is allowed there, and the end is as `Post` says.
  unfoldable pub Meets :
      (History → Call → Type 0) → (History → Outcome A → Type 0) → History → Prog A → Type 0
  Meets Allowed Post h (ret a) = Post h (returned a)
  Meets Allowed Post h (fail e) = Post h (failed e)
  Meets Allowed Post h unfinished = Post h polling
  Meets Allowed Post h (call c k) =
      Allowed h c × ((r : Reply c) → Meets Allowed Post (event c r ∷ h) (k r))

module _ {ℓ κ} {A : Type ℓ} {B : Type κ} (Allowed : History → Call → Type 0) where
  -- What the rest of a program owes once its first part has ended.
  abbrev pub Then : (History → Outcome B → Type 0) → (A → Prog B) → History → Outcome A → Type 0
  Then Post f h (returned a) = Meets Allowed Post h (f a)
  Then Post f h (failed e) = Post h (failed e)
  Then Post f h polling = Post h polling

  -- The first part may be judged by itself.
  pub Meets-bind :
      (Mid : History → Outcome A → Type 0) (Post : History → Outcome B → Type 0) (h : History)
      (m : Prog A) (f : A → Prog B)
      → Meets Allowed Mid h m
      → ((g : History) (o : Outcome A) → Mid g o → Then Post f g o)
      → Meets Allowed Post h (m >>= f)
  unfolding Meets
  Meets-bind Mid Post h (ret a) f first rest = rest h (returned a) first
  Meets-bind Mid Post h (fail e) f first rest = rest h (failed e) first
  Meets-bind Mid Post h unfinished f first rest = rest h polling first
  Meets-bind Mid Post h (call c k) f (allowed, first) rest =
      (allowed, λ r. Meets-bind Mid Post (event c r ∷ h) (k r) f (first r) rest)

module _ {ℓ} {A : Type ℓ} (Allowed : History → Call → Type 0) where
  abbrev pub Caught : (History → Outcome A → Type 0) → History → Outcome (Result A) → Type 0
  Caught Post h (returned (ok a)) = Post h (returned a)
  Caught Post h (returned (err e)) = Post h (failed e)
  Caught Post h (failed e) = ⊥
  Caught Post h polling = Post h polling

  pub Meets-catch :
      (Post : History → Outcome A → Type 0) (h : History) (m : Prog A)
      → Meets Allowed Post h m
      → Meets Allowed (Caught Post) h (catch m)
  unfolding Meets
  Meets-catch Post h (ret a) first = first
  Meets-catch Post h (fail e) first = first
  Meets-catch Post h unfinished first = first
  Meets-catch Post h (call c k) (allowed, first) =
      (allowed, λ r. Meets-catch Post (event c r ∷ h) (k r) (first r))

  pub Meets-weaken :
      (Mid Post : History → Outcome A → Type 0) (h : History) (m : Prog A)
      → Meets Allowed Mid h m
      → ((g : History) (o : Outcome A) → Mid g o → Post g o)
      → Meets Allowed Post h m
  unfolding Meets
  Meets-weaken Mid Post h (ret a) first weaker = weaker h (returned a) first
  Meets-weaken Mid Post h (fail e) first weaker = weaker h (failed e) first
  Meets-weaken Mid Post h unfinished first weaker = weaker h polling first
  Meets-weaken Mid Post h (call c k) (allowed, first) weaker =
      (allowed, λ r. Meets-weaken Mid Post (event c r ∷ h) (k r) (first r) weaker)

module _ {ℓ} {A : Type ℓ} where
  -- Only a program that returns promises anything of its end.
  abbrev pub Success : (History → A → Type 0) → History → Outcome A → Type 0
  Success P h (returned a) = P h a
  Success P h (failed e) = Unit
  Success P h polling = Unit

module _ {ℓ κ} {A : Type ℓ} {B : Type κ} (Allowed : History → Call → Type 0) where
  pub Meets-then :
      (P : History → A → Type 0) (Q : History → B → Type 0) (h : History) (m : Prog A)
      (f : A → Prog B)
      → Meets Allowed (Success P) h m
      → ((g : History) (a : A) → P g a → Meets Allowed (Success Q) g (f a))
      → Meets Allowed (Success Q) h (m >>= f)
  unfolding Meets
  Meets-then P Q h (ret a) f first rest = rest h a first
  Meets-then P Q h (fail e) f first rest = tt
  Meets-then P Q h unfinished f first rest = tt
  Meets-then P Q h (call c k) f (allowed, first) rest =
      (allowed, λ r. Meets-then P Q (event c r ∷ h) (k r) f (first r) rest)

module _ {ℓ} {A : Type ℓ} (Allowed : History → Call → Type 0) where
  -- A test is judged branch by branch.
  pub Meets-if :
      (Post : History → Outcome A → Type 0) (h : History) (b : Bool) (x y : Prog A)
      → (b ≡ true → Meets Allowed Post h x)
      → (b ≡ false → Meets Allowed Post h y)
      → Meets Allowed Post h (if b then x else y)
  Meets-if Post h true x y yes_case no_case = yes_case refl
  Meets-if Post h false x y yes_case no_case = no_case refl

  -- A value that is computed without a call.
  pub Meets-lift :
      (P : History → A → Type 0) (h : History) (r : Result A)
      → ((a : A) → r ≡ ok a → P h a)
      → Meets Allowed (Success P) h (lift r)
  unfolding Meets
  Meets-lift P h (ok a) good = good a refl
  Meets-lift P h (err e) good = tt

  pub Meets-or_fail :
      (P : History → A → Type 0) (h : History) (o : Option A) (e : Error)
      → ((a : A) → o ≡ some a → P h a)
      → Meets Allowed (Success P) h (or_fail o e)
  unfolding Meets
  Meets-or_fail P h (some a) e good = good a refl
  Meets-or_fail P h none e good = tt

  pub Meets-ret :
      (P : History → A → Type 0) (h : History) (a : A) → P h a → Meets Allowed (Success P) h (ret a)
  unfolding Meets
  Meets-ret P h a good = good

  pub Meets-fail :
      (P : History → A → Type 0) (h : History) (e : Error) → Meets Allowed (Success P) h (fail e)
  unfolding Meets
  Meets-fail P h e = tt

-- A program that keeps to an order keeps to a wider one.
pub Meets-widen {ℓ} :
    {A : Type ℓ} (Narrow Wide : History → Call → Type 0)
    → ((h : History) (c : Call) → Narrow h c → Wide h c)
    → (Post : History → Outcome A → Type 0) (h : History) (m : Prog A) → Meets Narrow Post h m
    → Meets Wide Post h m
unfolding Meets
Meets-widen Narrow Wide wider Post h (ret a) promised = promised
Meets-widen Narrow Wide wider Post h (fail e) promised = promised
Meets-widen Narrow Wide wider Post h unfinished promised = promised
Meets-widen Narrow Wide wider Post h (call c k) (allowed, promised) =
    (wider h c allowed, λ r. Meets-widen Narrow Wide wider Post (event c r ∷ h) (k r) (promised r))

-- Every call is allowed.
abbrev pub AnyCall : History → Call → Type 0
AnyCall h c = Unit

-- What no event takes away holds after any program.
pub Meets-any {ℓ} :
    {A : Type ℓ} (Keeps : History → Type 0)
    → Lasting Keeps
    → (h : History) (m : Prog A) → Keeps h
    → Meets AnyCall (Success (λ g _. Keeps g)) h m
unfolding Meets
Meets-any Keeps lasting h (ret a) keeps = keeps
Meets-any Keeps lasting h (fail e) keeps = tt
Meets-any Keeps lasting h unfinished keeps = tt
Meets-any Keeps lasting h (call c k) keeps =
    (tt, λ r. Meets-any Keeps lasting (event c r ∷ h) (k r) (lasting h (event c r) keeps))

-- Two promises about the same program.
pub Meets-both {ℓ} :
    {A : Type ℓ} (P Q : History → A → Type 0) (h : History) (m : Prog A)
    → Meets AnyCall (Success P) h m
    → Meets AnyCall (Success Q) h m
    → Meets AnyCall (Success (λ g a. P g a × Q g a)) h m
unfolding Meets
Meets-both P Q h (ret a) one other = (one, other)
Meets-both P Q h (fail e) one other = tt
Meets-both P Q h unfinished one other = tt
Meets-both P Q h (call c k) (_, one) (_, other) =
    (tt, λ r. Meets-both P Q (event c r ∷ h) (k r) (one r) (other r))

-- What no event takes away holds at every call of a program and at its end.
pub Meets-keeping {ℓ} :
    {A : Type ℓ} (Keeps : History → Type 0)
    → Lasting Keeps
    → (Allowed : History → Call → Type 0) (Q : History → A → Type 0) (h : History) (m : Prog A)
    → Keeps h
    → Meets Allowed (Success Q) h m
    → Meets (λ g c. Keeps g × Allowed g c) (Success (λ g a. Keeps g × Q g a)) h m
unfolding Meets
Meets-keeping Keeps lasting Allowed Q h (ret a) keeps promised = (keeps, promised)
Meets-keeping Keeps lasting Allowed Q h (fail e) keeps promised = tt
Meets-keeping Keeps lasting Allowed Q h unfinished keeps promised = tt
Meets-keeping Keeps lasting Allowed Q h (call c k) keeps (allowed, promised) = (
  (keeps, allowed),
  λ r.
      Meets-keeping Keeps lasting Allowed Q (event c r ∷ h) (k r) (lasting h (event c r) keeps)
        (promised r),
)
