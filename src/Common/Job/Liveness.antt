-- ===== src/Common/Job/Liveness.antt =====
-- Servers on which the polling loops of job.go come to an end.

use subprovisioner.Base.{
  ℕ, ◌+◌, ◌<◌, arith, zero, suc, String, ◌≡◌, refl, false, true, none, [], ◌∷◌,
}
use subprovisioner.Base.Int.{ℤ, pos, ltb_ℤ}
use subprovisioner.Kube.Errors.{Error, ok, err, is_not_found}
use subprovisioner.Kube.Calls.{event, History, get_job, delete_job, sleep}
use subprovisioner.Kube.Contract.{returned}
use subprovisioner.Kube.Run.{Environment, run}
use subprovisioner.Common.Job.{wait_for_job_to_succeed, await_job_gone, delete_job_synchronously}

-- How often a job was read.
abbrev pub reads : History → ℕ
reads [] = 0
reads (event (get_job _ _) _ ∷ h) = suc (reads h)
reads (event _ _ ∷ h) = reads h

module _ (env : Environment) (namespace name : String) (n : ℕ) where
  -- The job is read without a success `n` times, and with one after that.
  abbrev pub SucceedsAfter : Type 0
  SucceedsAfter =
      ((h : History)
        → reads h < n
        → ((count : ℤ) × (env h (get_job namespace name) ≡ ok count)
            × (ltb_ℤ (pos 0) count ≡ false)))
      × ((h : History)
          → reads h ≡ n
          → ((count : ℤ) × (env h (get_job namespace name) ≡ ok count)
              × (ltb_ℤ (pos 0) count ≡ true)))

  wait-rest :
      SucceedsAfter
      → (left rounds : ℕ) (h : History) → reads h + left ≡ n
      → left < rounds
      → (run env h (wait_for_job_to_succeed rounds name namespace)).0 ≡ returned tt
  unfolding run wait_for_job_to_succeed
  wait-rest soon left zero h at enough = ground arith
  wait-rest (before, then) zero (suc rounds) h at enough =
      let (count, answer, positive) = then h (omega arith) in rw (run, answer, positive) refl
  wait-rest (before, then) (suc left) (suc rounds) h at enough =
      let (count, answer, positive) = before h (omega arith) in
      rw (run, answer, positive)
        (wait-rest (before, then) left rounds _ (omega arith) (omega arith))

  -- If the job is read without a success `n` times and with one after that, then waiting for it with
  -- more than `n` rounds returns.
  pub wait_for_job_to_succeed_returns :
      (rounds : ℕ)
      → SucceedsAfter
      → n < rounds
      → (run env [] (wait_for_job_to_succeed rounds name namespace)).0 ≡ returned tt
  wait_for_job_to_succeed_returns rounds soon enough =
      wait-rest soon n rounds [] (omega arith) enough

  -- The deletion is accepted, the job is still there at `n` reads, and gone after that.
  abbrev pub GoneAfter : Type 0
  GoneAfter =
      (env [] (delete_job namespace name) ≡ ok tt)
      × ((h : History) → reads h < n → ((count : ℤ) × (env h (get_job namespace name) ≡ ok count)))
      × ((h : History)
          → reads h ≡ n
          → ((e : Error) × (env h (get_job namespace name) ≡ err e) × (is_not_found e ≡ true)))

  await-rest :
      GoneAfter
      → (left rounds : ℕ) (h : History) → reads h + left ≡ n
      → left < rounds
      → (run env h (await_job_gone rounds name namespace none)).0 ≡ returned tt
  unfolding run await_job_gone
  await-rest soon left zero h at enough = ground arith
  await-rest (accepted, before, then) zero (suc rounds) h at enough =
      let (e, answer, missing) = then (event (sleep 1) (env h (sleep 1)) ∷ h) (omega arith) in
      rw (run, answer, missing) refl
  await-rest (accepted, before, then) (suc left) (suc rounds) h at enough =
      let (count, answer) = before (event (sleep 1) (env h (sleep 1)) ∷ h) (omega arith) in
      rw (run, answer)
        (await-rest (accepted, before, then) left rounds _ (omega arith) (omega arith))

  -- If the server accepts the deletion, the job is still there at `n` reads and not found after
  -- that, then the synchronous deletion with more than `n` rounds returns.
  pub delete_job_synchronously_returns :
      (rounds : ℕ)
      → GoneAfter
      → n < rounds
      → (run env [] (delete_job_synchronously rounds name namespace)).0 ≡ returned tt
  unfolding run delete_job_synchronously
  delete_job_synchronously_returns rounds soon enough =
      rw (run, soon.0) (await-rest soon n rounds _ (omega arith) enough)
