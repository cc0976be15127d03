-- ===== src/Kube/Retries.antt =====
-- What the retry helper makes of a judgement about one attempt.
use subprovisioner.Base.{◌≡◌, ◌∷◌, inl, inr, Bool-cases}
use subprovisioner.Kube.Errors.{is_conflict}
use subprovisioner.Kube.Calls.{Call, event, History, back_off}
use subprovisioner.Kube.Prog.{Prog, ret, fail, unfinished, call}
use subprovisioner.Kube.Contract.{Outcome, returned, Meets, Meets-weaken}
use subprovisioner.Kube.Run.{Environment, run}
use subprovisioner.Kube.Libraries.{Libraries, IsLawful, Attempts, last, again, or_again}

module _ (Allowed : History → Call → Type 0) (Keeps : History → Type 0) where
  -- What an attempt must leave behind for the next attempt to start from.
  abbrev pub Renewed :
      (History → Outcome (Unit {0}) → Type 0) → History → Outcome (Unit {0}) → Type 0
  Renewed Post h o = Post h o × Keeps h

  Meets-or_again :
      (Post : History → Outcome (Unit {0}) → Type 0)
      → ((h : History) → Keeps h → Allowed h back_off)
      → ((h : History) → Keeps h → Keeps (event back_off tt ∷ h))
      → (later : Prog (Unit {0})) → ((h : History) → Keeps h → Meets Allowed Post h later)
      → (attempt : Prog (Unit {0})) (h : History) → Meets Allowed (Renewed Post) h attempt
      → Meets Allowed Post h (or_again attempt later)
  unfolding Meets or_again
  Meets-or_again Post pause paused later rest (ret a) h first = first.0
  Meets-or_again Post pause paused later rest (fail e) h first = elim (Bool-cases (is_conflict e)) [
    | inl c ↦ rw c (pause h first.1, λ _. rest (event back_off tt ∷ h) (paused h first.1))
    | inr c ↦ rw c first.0
  ]
  Meets-or_again Post pause paused later rest unfinished h first = first.0
  Meets-or_again Post pause paused later rest (call c k) h (allowed, first) =
      (allowed, λ r. Meets-or_again Post pause paused later rest (k r) (event c r ∷ h) (first r))

  Meets-Attempts :
      (Post : History → Outcome (Unit {0}) → Type 0)
      → ((h : History) → Keeps h → Allowed h back_off)
      → ((h : History) → Keeps h → Keeps (event back_off tt ∷ h))
      → {attempt whole : Prog (Unit {0})}
      → ((h : History) → Keeps h → Meets Allowed (Renewed Post) h attempt)
      → Attempts attempt whole
      → (h : History) → Keeps h
      → Meets Allowed Post h whole
  Meets-Attempts Post pause paused {attempt} first last h k =
      Meets-weaken Allowed (Renewed Post) Post h attempt (first h k) (λ g o p. p.0)
  Meets-Attempts Post pause paused {attempt} first (again {later} more) h k =
      Meets-or_again Post pause paused later (Meets-Attempts Post pause paused first more) attempt h
        (first h k)

  -- If every attempt, started from a history with a lasting property, is allowed and ends well, so is
  -- the whole of the attempts.
  pub Meets-retry :
      (Post : History → Outcome (Unit {0}) → Type 0)
      → ((h : History) → Keeps h → Allowed h back_off)
      → ((h : History) → Keeps h → Keeps (event back_off tt ∷ h))
      → (lib : Libraries) → IsLawful lib
      → (attempt : Prog (Unit {0}))
      → ((h : History) → Keeps h → Meets Allowed (Renewed Post) h attempt)
      → (h : History) → Keeps h
      → Meets Allowed Post h (lib.retry_on_conflict attempt)
  Meets-retry Post pause paused lib law attempt first =
      Meets-Attempts Post pause paused first (law.retries attempt)

module _ (env : Environment) where
  run-or_again :
      (attempt later : Prog (Unit {0})) (h g : History)
      → run env h attempt ≡ (returned tt, g)
      → run env h (or_again attempt later) ≡ (returned tt, g)
  unfolding run or_again
  run-or_again (ret a) later h g done = done
  run-or_again (fail e) later h g done = cc
  run-or_again unfinished later h g done = done
  run-or_again (call c k) later h g done = run-or_again (k (env h c)) later _ g done

  run-Attempts :
      {attempt whole : Prog (Unit {0})} (h g : History)
      → run env h attempt ≡ (returned tt, g)
      → Attempts attempt whole
      → run env h whole ≡ (returned tt, g)
  run-Attempts h g done last = done
  run-Attempts {attempt} h g done (again {later} more) = run-or_again attempt later h g done

  -- A retry whose first attempt succeeds is that attempt.
  pub run-retry :
      (lib : Libraries)
      → IsLawful lib
      → (attempt : Prog (Unit {0})) (h g : History) → run env h attempt ≡ (returned tt, g)
      → run env h (lib.retry_on_conflict attempt) ≡ (returned tt, g)
  run-retry lib law attempt h g done = run-Attempts h g done (law.retries attempt)
