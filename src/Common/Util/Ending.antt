-- ===== src/Common/Util/Ending.antt =====
-- Nodes on which a block device appears, or the context ends, in time, and that waiting for it then ends.
use mathlib.Core.Bool.{false≢true}
use mathlib.Core.Path.{subst}
use subprovisioner.Base.{
  ℕ, zero, suc, String, ◌≡◌, sym, ◌∙◌, ◌⊎◌, true, false, refl, Option, none, some, ◌∷◌, inl, inr,
  Bool-cases,
}
use subprovisioner.Kube.Errors.{Result, ok, err, Result-cases, is_not_exist, is_already_exists}
use subprovisioner.Kube.Calls.{
  event, History, stat, context_err, sleep, create_replica_set as create_replica_set_call,
}
use subprovisioner.Kube.Prog.{Prog, ◌>>=◌}
use subprovisioner.Kube.Run.{Environment, run}
use subprovisioner.Kube.Ends.{NotPolling, Ends}
use subprovisioner.Kube.Objects.{ReplicaSet}
use subprovisioner.Common.ReplicaSet.{ReplicaSetConfig, replica_set_of, create_replica_set}
use subprovisioner.Common.Util.{is_block_device, wait_until_file_is_block_device}

Option-cases {ℓ} : {A : Type ℓ} (o : Option A) → (o ≡ none) ⊎ ((a : A) × (o ≡ some a))
Option-cases none = inl refl
Option-cases (some a) = inr (a, refl)

module _ (env : Environment) (path : String) where
  -- An answer after which the file is not looked at again.
  abbrev pub IsFinal : Result ℕ → Type 0
  IsFinal (ok mode) = is_block_device mode ≡ true
  IsFinal (err e) = is_not_exist e ≡ false

  -- The history before the pause: the context is asked when the file is missing.
  abbrev pub looked : History → Result ℕ → History
  looked h (ok mode) = event (stat path) (ok mode) ∷ h
  looked h (err e) =
      let missing = event (stat path) (err e) ∷ h in
      event context_err (env missing context_err) ∷ missing

  -- One of the next looks at the file, each a second after the one before, is final.
  abbrev pub Appears : ℕ → History → Type 0
  Appears zero h = ⊥
  Appears (suc rounds) h =
      IsFinal (env h (stat path))
      ⊎ Appears rounds (event (sleep 1) tt ∷ looked h (env h (stat path)))

  Appears-at :
      (rounds : ℕ) (h : History) (r : Result ℕ)
      → env h (stat path) ≡ r
      → Appears (suc rounds) h
      → IsFinal r ⊎ Appears rounds (event (sleep 1) tt ∷ looked h r)
  Appears-at rounds h r answer appears =
      subst (λ r. IsFinal r ⊎ Appears rounds (event (sleep 1) tt ∷ looked h r)) answer appears

  Appears-NotPolling :
      (rounds : ℕ) (h : History)
      → Appears rounds h
      → NotPolling (run env h (wait_until_file_is_block_device rounds path)).0
  unfolding run wait_until_file_is_block_device
  Appears-NotPolling zero h appears = appears
  Appears-NotPolling (suc rounds) h appears = elim (Result-cases (env h (stat path))) [
    | inl (mode, answer) ↦ elim (Bool-cases (is_block_device mode)) [
      | inl device ↦ rw (run, answer, device) tt
      | inr other ↦
          rw (run, answer, other)
            (Appears-NotPolling rounds _ (elim (Appears-at rounds h (ok mode) answer appears) [
              | inl final ↦ absurd (false≢true (sym other ∙ final))
              | inr later ↦ later
            ]))
    ]
    | inr (e, answer) ↦ elim (Bool-cases (is_not_exist e)) [
      | inr other ↦ rw (run, answer, other) tt
      | inl missing ↦ elim (Option-cases (env (event (stat path) (err e) ∷ h) context_err)) [
        | inr (d, ended) ↦ rw (run, answer, missing, run, ended) tt
        | inl goes_on ↦
            rw (run, answer, missing, run, goes_on)
              (Appears-NotPolling rounds _ (elim (Appears-at rounds h (err e) answer appears) [
                | inl final ↦ absurd (false≢true (sym final ∙ missing))
                | inr later ↦
                    subst
                      (λ d.
                        Appears rounds (
                          event (sleep 1) tt ∷ event context_err d ∷ event (stat path) (err e) ∷ h))
                      goes_on later
              ]))
      ]
    ]
  ]

-- A node on which, after a replica set was asked for, each file becomes a block device, or cannot be
-- read, within this number of looks.
abbrev pub PromptFiles : Environment → ℕ → Type 0
PromptFiles env rounds =
    (path namespace : String) (made : ReplicaSet) (r : Result (Unit {0})) (h : History)
    → Appears env path rounds (event (create_replica_set_call namespace made) r ∷ h)

module _ (env : Environment) (rounds : ℕ) (prompt : PromptFiles env rounds)
    (config : ReplicaSetConfig) (path : String) where
  abbrev waits : Prog (Unit {0})
  waits = wait_until_file_is_block_device rounds path

  waits-NotPolling :
      (h : History) (r : Result (Unit {0}))
      → NotPolling
          (run env
            (event (create_replica_set_call config.namespace (replica_set_of config)) r ∷ h)
            waits).0
  waits-NotPolling h r =
      Appears-NotPolling env path rounds _
        (prompt path config.namespace (replica_set_of config) r h)

  -- A replica set is created and its file waited for.
  pub Ends-create-wait : Ends env (create_replica_set config >>= λ _. waits)
  unfolding run create_replica_set
  Ends-create-wait h =
      elim (Result-cases
        (env h (create_replica_set_call config.namespace (replica_set_of config)))) [
          | inl (made, answer) ↦ rw (run, answer) (waits-NotPolling h (ok made))
          | inr (e, answer) ↦ elim (Bool-cases (is_already_exists e)) [
            | inl exists ↦ rw (run, answer, exists) (waits-NotPolling h (err e))
            | inr other ↦ rw (run, answer, other) tt
          ]
        ]
