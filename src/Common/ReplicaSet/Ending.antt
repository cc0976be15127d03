-- ===== src/Common/ReplicaSet/Ending.antt =====
-- Servers that let go of replica sets, and that the programs on replica sets then end.
use mathlib.Core.Path.{subst}
use subprovisioner.Base.{ℕ, zero, suc, String, ◌⊎◌, none, ◌∷◌, inl, inr, Bool-cases}
use subprovisioner.Kube.Errors.{Result, ok, err, IsError, Result-cases, is_not_found}
use subprovisioner.Kube.Calls.{event, History, get_replica_set, delete_replica_set, sleep}
use subprovisioner.Kube.Run.{Environment, run}
use subprovisioner.Kube.Ends.{NotPolling, Ends, Ends-fail, Ends-call}
use subprovisioner.Common.Pvc.Ending.{Ends-only_item}
use subprovisioner.Common.ReplicaSet.{
  find_replica_set_by_label_selector, await_replica_set_gone, delete_replica_set_synchronously,
}

module _ (env : Environment) (namespace name : String) where
  -- One of the next reads of the replica set, each after a second, is an error, as when it is gone.
  abbrev pub Goes : ℕ → History → Type 0
  Goes zero h = ⊥
  Goes (suc rounds) h =
      let read = env (event (sleep 1) tt ∷ h) (get_replica_set namespace name) in
      IsError read
      ⊎ Goes rounds (event (get_replica_set namespace name) read ∷ event (sleep 1) tt ∷ h)

  await-NotPolling :
      (rounds : ℕ) (h : History)
      → Goes rounds h
      → NotPolling (run env h (await_replica_set_gone rounds name namespace none)).0
  unfolding run await_replica_set_gone
  await-NotPolling zero h goes = goes
  await-NotPolling (suc rounds) h goes =
      elim (Result-cases (env (event (sleep 1) tt ∷ h) (get_replica_set namespace name))) [
        | inr (e, answer) ↦ elim (Bool-cases (is_not_found e)) [
          | inl gone ↦ rw (run, answer, gone) tt
          | inr other ↦ rw (run, answer, other) tt
        ]
        | inl (there, answer) ↦
            rw (run, answer)
              (await-NotPolling rounds _
                (elim (subst
                  (λ (r : Result (Unit {0})).
                    IsError r
                    ⊎ Goes rounds
                        (event (get_replica_set namespace name) r ∷ event (sleep 1) tt ∷ h))
                  answer goes) [ inl never ↦ elim never [ ] | inr later ↦ later ]))
      ]

-- A server that lets go of every replica set whose deletion it accepted within this number of reads.
abbrev pub PromptReplicaSets : Environment → ℕ → Type 0
PromptReplicaSets env rounds =
    (namespace name : String) (h : History)
    → Goes env namespace name rounds (event (delete_replica_set namespace name) (ok tt) ∷ h)

module _ (env : Environment) where
  pub Ends-find_replica_set :
      (selector : String) → Ends env (find_replica_set_by_label_selector selector)
  unfolding find_replica_set_by_label_selector
  Ends-find_replica_set selector =
      Ends-call env _ _ (elim [ ok items ↦ Ends-only_item env items | err e ↦ Ends-fail env _ e ])

  pub Ends-delete_replica_set :
      (rounds : ℕ)
      → PromptReplicaSets env rounds
      → (name namespace : String)
      → Ends env (delete_replica_set_synchronously rounds name namespace)
  unfolding run delete_replica_set_synchronously await_replica_set_gone
  Ends-delete_replica_set rounds prompt name namespace h =
      elim (Result-cases (env h (delete_replica_set namespace name))) [
        | inl (accepted, answer) ↦
            rw (run, answer)
              (await-NotPolling env namespace name rounds _ (prompt namespace name h))
        | inr (e, answer) ↦ elim (Bool-cases (is_not_found e)) [
          | inl gone ↦ rw (run, answer, gone) tt
          | inr other ↦ rw (run, answer, other) tt
        ]
      ]
