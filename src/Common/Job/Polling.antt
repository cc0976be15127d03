-- ===== src/Common/Job/Polling.antt =====
-- What the polling loops of job.go have seen when they return.
use mathlib.Core.Option.{some-injective}
use subprovisioner.Base.{ℕ, zero, suc, String, ◌≡◌, refl, true, Option, none, some, inl}
use subprovisioner.Base.Int.{pos, ltb_ℤ}
use subprovisioner.Kube.Errors.{Error, ok, err, is_not_found, is_already_exists}
use subprovisioner.Kube.Calls.{
  Call, Event, event, History, create_job as create_job_call, get_job, delete_job, sleep,
}
use subprovisioner.Kube.Prog.{Prog, ◌>>=◌}
use subprovisioner.Kube.Contract.{Lasting, Meets, Success, Saw, Meets-if, Meets-then}
use subprovisioner.Common.Job.{
  JobConfig, job_of, create_job, wait_for_job_to_succeed, await_job_gone, delete_job_synchronously,
}

-- A job was read with a positive count of successes.
abbrev pub JobSucceeded : String → String → Event → Type 0
JobSucceeded namespace name (event (get_job n m) (ok succeeded)) =
    (n ≡ namespace) × (m ≡ name) × (ltb_ℤ (pos 0) succeeded ≡ true)
JobSucceeded namespace name _ = ⊥

-- The server said that there is no such job.
abbrev pub JobGone : String → String → Event → Type 0
JobGone namespace name (event (get_job n m) (err e)) =
    (n ≡ namespace) × (m ≡ name) × (is_not_found e ≡ true)
JobGone namespace name (event (delete_job n m) (err e)) =
    (n ≡ namespace) × (m ≡ name) × (is_not_found e ≡ true)
JobGone namespace name _ = ⊥

-- The job was created, or existed under its name already.
abbrev pub JobMade : JobConfig → Event → Type 0
JobMade config (event (create_job_call n job) (ok _)) =
    (n ≡ config.namespace) × (job ≡ job_of config)
JobMade config (event (create_job_call n job) (err e)) =
    (n ≡ config.namespace) × (job ≡ job_of config) × (is_already_exists e ≡ true)
JobMade config _ = ⊥

module _ (Allowed : History → Call → Type 0) (Keeps : History → Type 0)
    (lasting : Lasting Keeps) where
  abbrev pub Attained : (Event → Type 0) → History → Unit {0} → Type 0
  Attained P h _ = Keeps h × Saw P h

  pub Meets-create_job :
      (config : JobConfig) (h : History)
      → Keeps h
      → Allowed h (create_job_call config.namespace (job_of config))
      → Meets Allowed (Success (Attained (JobMade config))) h (create_job config)
  unfolding Meets create_job
  Meets-create_job config h keeps allowed = (
    allowed,
    elim [
      | ok _ ↦ (lasting h _ keeps, inl (refl, refl))
      | err e ↦
          Meets-if Allowed (Success (Attained (JobMade config))) _ (is_already_exists e) _ _
            (λ there. (lasting h _ keeps, inl (refl, refl, there))) (λ _. tt)
    ],
  )

  module _ (name namespace : String) (read : (h : History) → Allowed h (get_job namespace name))
      (pause : (h : History) → Allowed h (sleep 1)) where
    pub Meets-wait_for_job_to_succeed :
        (rounds : ℕ) (h : History)
        → Keeps h
        → Meets Allowed
            (Success (Attained (JobSucceeded namespace name)))
            h
            (wait_for_job_to_succeed rounds name namespace)
    unfolding Meets wait_for_job_to_succeed
    Meets-wait_for_job_to_succeed zero h keeps = tt
    Meets-wait_for_job_to_succeed (suc rounds) h keeps = (
      read h,
      elim [
        | ok succeeded ↦
            Meets-if Allowed (Success (Attained (JobSucceeded namespace name))) _
              (ltb_ℤ (pos 0) succeeded) _ _ (λ e. (lasting h _ keeps, inl (refl, refl, e)))
              (λ _. (
                pause _,
                λ r. Meets-wait_for_job_to_succeed rounds _ (lasting _ _ (lasting h _ keeps)),
              ))
        | err e ↦ tt
      ],
    )

    -- The loop starts behind a call whose error it looks at.
    Meets-await_job_gone :
        (rounds : ℕ) (h : History) (o : Option Error)
        → Keeps h
        → ((e : Error) → o ≡ some e → is_not_found e ≡ true → Saw (JobGone namespace name) h)
        → Meets Allowed
            (Success (Attained (JobGone namespace name)))
            h
            (await_job_gone rounds name namespace o)
    unfolding Meets await_job_gone
    Meets-await_job_gone rounds h (some e) keeps seen =
        Meets-if Allowed (Success (Attained (JobGone namespace name))) h (is_not_found e) _ _
          (λ gone. (keeps, seen e refl gone)) (λ _. tt)
    Meets-await_job_gone zero h none keeps seen = tt
    Meets-await_job_gone (suc rounds) h none keeps seen = (
      pause h,
      λ _. (
        read _,
        elim [
          | ok _ ↦ Meets-await_job_gone rounds _ none (lasting _ _ (lasting h _ keeps)) (λ e p. cc)
          | err e ↦
              Meets-await_job_gone rounds _ (some e) (lasting _ _ (lasting h _ keeps))
                (λ d p gone. inl (refl, refl, rw (some-injective _ _ p) gone))
        ],
      ),
    )

    pub Meets-delete_job_synchronously :
        (rounds : ℕ) (h : History)
        → Keeps h
        → Allowed h (delete_job namespace name)
        → Meets Allowed
            (Success (Attained (JobGone namespace name)))
            h
            (delete_job_synchronously rounds name namespace)
    unfolding Meets delete_job_synchronously
    Meets-delete_job_synchronously rounds h keeps removal = (
      removal,
      elim [
        | ok _ ↦ Meets-await_job_gone rounds _ none (lasting h _ keeps) (λ e p. cc)
        | err e ↦
            Meets-await_job_gone rounds _ (some e) (lasting h _ keeps)
              (λ d p gone. inl (refl, refl, rw (some-injective _ _ p) gone))
      ],
    )

-- The same, in front of the rest of a program.
module _ {ℓ} {B : Type ℓ} (Allowed : History → Call → Type 0) (Q : History → B → Type 0)
    (Keeps : History → Type 0) (lasting : Lasting Keeps) where
  -- What the rest owes, once `P` has been seen.
  abbrev pub Onwards : (Event → Type 0) → (Unit {0} → Prog B) → Type 0
  Onwards P f = (g : History) → Keeps g → Saw P g → Meets Allowed (Success Q) g (f tt)

  pub create_job-then :
      (config : JobConfig) (f : Unit {0} → Prog B) (h : History)
      → Keeps h
      → Allowed h (create_job_call config.namespace (job_of config))
      → Onwards (JobMade config) f
      → Meets Allowed (Success Q) h (create_job config >>= f)
  create_job-then config f h keeps allowed rest =
      Meets-then Allowed (Attained Allowed Keeps lasting (JobMade config)) Q h _ f
        (Meets-create_job Allowed Keeps lasting config h keeps allowed) λ g _ at. rest g at.0 at.1

  module _ (rounds : ℕ) (name namespace : String)
      (read : (h : History) → Allowed h (get_job namespace name))
      (pause : (h : History) → Allowed h (sleep 1)) where
    pub wait_for_job_to_succeed-then :
        (f : Unit {0} → Prog B) (h : History)
        → Keeps h
        → Onwards (JobSucceeded namespace name) f
        → Meets Allowed (Success Q) h (wait_for_job_to_succeed rounds name namespace >>= f)
    wait_for_job_to_succeed-then f h keeps rest =
        Meets-then Allowed (Attained Allowed Keeps lasting (JobSucceeded namespace name)) Q h _ f
          (Meets-wait_for_job_to_succeed Allowed Keeps lasting name namespace read pause rounds h
            keeps)
          λ g _ at. rest g at.0 at.1

    pub delete_job_synchronously-then :
        (f : Unit {0} → Prog B) (h : History)
        → Keeps h
        → Allowed h (delete_job namespace name)
        → Onwards (JobGone namespace name) f
        → Meets Allowed (Success Q) h (delete_job_synchronously rounds name namespace >>= f)
    delete_job_synchronously-then f h keeps removal rest =
        Meets-then Allowed (Attained Allowed Keeps lasting (JobGone namespace name)) Q h _ f
          (Meets-delete_job_synchronously Allowed Keeps lasting name namespace read pause rounds h
            keeps removal)
          λ g _ at. rest g at.0 at.1
