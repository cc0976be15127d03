-- ===== src/Common/Util/Context.antt =====
-- `WaitUntilFileIsBlockDevice` while something else lies at the path.
use subprovisioner.Base.{ℕ, zero, suc, String, ◌≡◌, refl, false, [], ◌∷◌, inl, inr}
use subprovisioner.Kube.Errors.{ok}
use subprovisioner.Kube.Calls.{Event, event, History, stat, context_err, sleep}
use subprovisioner.Kube.Contract.{Saw, polling}
use subprovisioner.Kube.Run.{Environment, run}
use subprovisioner.Common.Util.{is_block_device, wait_until_file_is_block_device}

-- The context was asked whether it is done.
abbrev pub ContextRead : Event → Type 0
ContextRead (event context_err _) = Unit
ContextRead _ = ⊥

module _ (env : Environment) (path : String) (mode : ℕ) (other : is_block_device mode ≡ false)
    (found : (h : History) → env h (stat path) ≡ ok mode) where
  wait-rest :
      (rounds : ℕ) (h : History)
      → ¬ Saw ContextRead h
      → ((run env h (wait_until_file_is_block_device rounds path)).0 ≡ polling)
        × (¬ Saw ContextRead (run env h (wait_until_file_is_block_device rounds path)).1)
  unfolding run wait_until_file_is_block_device
  wait-rest zero h unread = (refl, unread)
  wait-rest (suc rounds) h unread =
      let rest =
        wait-rest rounds
          (event (sleep 1) (env (event (stat path) (ok mode) ∷ h) (sleep 1))
            ∷ event (stat path) (ok mode)
            ∷ h)
          (elim [
            | inl e ↦ elim e [ ]
            | inr s ↦ elim s [ inl e ↦ elim e [ ] | inr s' ↦ unread s' ]
          ]) in
      rw (run, found, other) rest

  -- While the path is there and is not a block device, waiting goes on for as many rounds as it is
  -- given, and the context is never asked whether it is done.
  pub wait_ignores_context :
      (rounds : ℕ)
      → ((run env [] (wait_until_file_is_block_device rounds path)).0 ≡ polling)
        × (¬ Saw ContextRead (run env [] (wait_until_file_is_block_device rounds path)).1)
  wait_ignores_context rounds = wait-rest rounds [] (λ s. s)
