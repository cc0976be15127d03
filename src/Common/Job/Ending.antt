-- ===== src/Common/Job/Ending.antt =====
-- Servers that settle what the polling loops of job.go wait for, and that the programs on jobs then end.
use mathlib.Core.Bool.{false≢true}
use mathlib.Core.Path.{subst}
use subprovisioner.Base.{
  sym, ◌∙◌, ℕ, zero, suc, String, ◌≡◌, ◌⊎◌, true, none, ◌∷◌, inl, inr, Bool-cases,
}
use subprovisioner.Base.Int.{ℤ, pos, ltb_ℤ}
use subprovisioner.Kube.Errors.{
  Result, ok, err, IsError, Result-cases, is_already_exists, is_not_found,
}
use subprovisioner.Kube.Calls.{
  event, History, get_job, delete_job, sleep, create_job as create_job_call,
}
use subprovisioner.Kube.Prog.{Prog, ◌>>=◌}
use subprovisioner.Kube.Run.{Environment, run}
use subprovisioner.Kube.Objects.{Job}
use subprovisioner.Kube.Ends.{NotPolling, bind-NotPolling, Ends}
use subprovisioner.Common.Job.{
  JobConfig, job_of, create_job, wait_for_job_to_succeed, await_job_gone, delete_job_synchronously,
}

-- An answer after which a job is not read again: a success or an error.
abbrev pub IsFinal : Result ℤ → Type 0
IsFinal (ok succeeded) = ltb_ℤ (pos 0) succeeded ≡ true
IsFinal (err e) = Unit

module _ (env : Environment) (namespace name : String) where
  -- One of the next reads of the job, each a second after the one before, is final.
  abbrev pub Settles : ℕ → History → Type 0
  Settles zero h = ⊥
  Settles (suc rounds) h =
      IsFinal (env h (get_job namespace name))
      ⊎ Settles rounds
          (event (sleep 1) tt ∷ event (get_job namespace name) (env h (get_job namespace name)) ∷ h)

  -- One of the next reads of the job, each after a second, is an error, as when it is gone.
  abbrev pub Goes : ℕ → History → Type 0
  Goes zero h = ⊥
  Goes (suc rounds) h =
      let read = env (event (sleep 1) tt ∷ h) (get_job namespace name) in
      IsError read ⊎ Goes rounds (event (get_job namespace name) read ∷ event (sleep 1) tt ∷ h)

  wait-NotPolling :
      (rounds : ℕ) (h : History)
      → Settles rounds h
      → NotPolling (run env h (wait_for_job_to_succeed rounds name namespace)).0
  unfolding run wait_for_job_to_succeed
  wait-NotPolling zero h settles = settles
  wait-NotPolling (suc rounds) h settles = elim (Result-cases (env h (get_job namespace name))) [
    | inr (e, answer) ↦ rw (run, answer) tt
    | inl (count, answer) ↦ elim (Bool-cases (ltb_ℤ (pos 0) count)) [
      | inl positive ↦ rw (run, answer, positive) tt
      | inr waiting ↦
          rw (run, answer, waiting)
            (wait-NotPolling rounds _
              (elim (subst
                (λ (r : Result ℤ).
                  IsFinal r
                  ⊎ Settles rounds (event (sleep 1) tt ∷ event (get_job namespace name) r ∷ h))
                answer settles) [
                  | inl final ↦ absurd (false≢true (sym waiting ∙ final))
                  | inr later ↦ later
                ]))
    ]
  ]

  await-NotPolling :
      (rounds : ℕ) (h : History)
      → Goes rounds h
      → NotPolling (run env h (await_job_gone rounds name namespace none)).0
  unfolding run await_job_gone
  await-NotPolling zero h goes = goes
  await-NotPolling (suc rounds) h goes =
      elim (Result-cases (env (event (sleep 1) tt ∷ h) (get_job namespace name))) [
        | inr (e, answer) ↦ elim (Bool-cases (is_not_found e)) [
          | inl gone ↦ rw (run, answer, gone) tt
          | inr other ↦ rw (run, answer, other) tt
        ]
        | inl (count, answer) ↦
            rw (run, answer)
              (await-NotPolling rounds _
                (elim (subst
                  (λ (r : Result ℤ).
                    IsError r
                    ⊎ Goes rounds (event (get_job namespace name) r ∷ event (sleep 1) tt ∷ h))
                  answer goes) [ inl never ↦ elim never [ ] | inr later ↦ later ]))
      ]

-- A server that settles every job that it was asked to create, and lets go of every job whose deletion
-- it accepted, within this number of reads.
pub record PromptJobs (env : Environment) (rounds : ℕ) : Type 0 where
  pub settles :
      (namespace : String) (job : Job) (r : Result (Unit {0})) (h : History)
      → Settles env namespace job.name rounds (event (create_job_call namespace job) r ∷ h)
  pub goes :
      (namespace name : String) (h : History)
      → Goes env namespace name rounds (event (delete_job namespace name) (ok tt) ∷ h)

-- A job is created, and what follows ends from there on.
Ends-create_job {ℓ} :
    {B : Type ℓ} (env : Environment) (config : JobConfig) (following : Prog B)
    → ((h : History) (r : Result (Unit {0}))
        → NotPolling
            (run env (event (create_job_call config.namespace (job_of config)) r ∷ h) following).0)
    → Ends env (create_job config >>= λ _. following)
unfolding run create_job
Ends-create_job env config following ends h =
    elim (Result-cases (env h (create_job_call config.namespace (job_of config)))) [
      | inl (made, answer) ↦ rw (run, answer) (ends h (ok made))
      | inr (e, answer) ↦ elim (Bool-cases (is_already_exists e)) [
        | inl exists ↦ rw (run, answer, exists) (ends h (err e))
        | inr other ↦ rw (run, answer, other) tt
      ]
    ]

module _ (env : Environment) (rounds : ℕ) (prompt : PromptJobs env rounds) where
  module _ (config : JobConfig) where
    abbrev waits : Prog (Unit {0})
    waits = wait_for_job_to_succeed rounds config.name config.namespace

    waits-NotPolling :
        (h : History) (r : Result (Unit {0}))
        → NotPolling
            (run env (event (create_job_call config.namespace (job_of config)) r ∷ h) waits).0
    waits-NotPolling h r =
        wait-NotPolling env config.namespace config.name rounds _
          (unfold job_of in prompt.settles config.namespace (job_of config) r h)

    -- A job is created and waited for.
    pub Ends-create-wait : Ends env (create_job config >>= λ _. waits)
    Ends-create-wait = Ends-create_job env config waits waits-NotPolling

    -- The same, in front of the rest of a program.
    pub Ends-create-wait_then {ℓ} :
        {B : Type ℓ} (f : Unit {0} → Prog B)
        → ((u : Unit {0}) → Ends env (f u))
        → Ends env (create_job config >>= λ _. waits >>= f)
    Ends-create-wait_then f rest =
        Ends-create_job env config (waits >>= f)
          λ h r. bind-NotPolling env _ waits f (waits-NotPolling h r) rest

  pub Ends-delete_job :
      (name namespace : String) → Ends env (delete_job_synchronously rounds name namespace)
  unfolding run delete_job_synchronously await_job_gone
  Ends-delete_job name namespace h = elim (Result-cases (env h (delete_job namespace name))) [
    | inl (accepted, answer) ↦
        rw (run, answer)
          (await-NotPolling env namespace name rounds _ (prompt.goes namespace name h))
    | inr (e, answer) ↦ elim (Bool-cases (is_not_found e)) [
      | inl gone ↦ rw (run, answer, gone) tt
      | inr other ↦ rw (run, answer, other) tt
    ]
  ]
