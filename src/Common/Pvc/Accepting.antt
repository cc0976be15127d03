-- ===== src/Common/Pvc/Accepting.antt =====
-- `SetPvcStateTo` against a server that lets it through at once.
use subprovisioner.Base.{ap, ◌∙◌, String, ◌≡◌, refl, true, false, ◌∷◌, ◌==◌}
use subprovisioner.Base.Dict
use subprovisioner.Kube.Objects.{Pvc}
use subprovisioner.Kube.Errors.{ok}
use subprovisioner.Kube.Calls.{event, History, get_pvc, update_pvc}
use subprovisioner.Kube.Contract.{returned}
use subprovisioner.Kube.Libraries.{Libraries, IsLawful}
use subprovisioner.Kube.Run.{Environment, run, run-bind, resume}
use subprovisioner.Kube.Prog.{Prog, ◌>>=◌}
use subprovisioner.Kube.Retries.{run-retry}
use subprovisioner.Common.Pvc.{
  is_set, with_state, state_key, leave_state, set_pvc_state_attempt, set_pvc_state_to,
}

module _ (env : Environment) (pvc : Pvc) (new_state : String) where
  -- The server has the claim, idle and not being deleted, and accepts the write that follows.
  abbrev pub LetsThrough : History → Type 0
  LetsThrough h =
      (env h (get_pvc pvc.namespace pvc.name) ≡ ok pvc)
      × (is_set pvc.deletion_timestamp ≡ false)
      × ((Dict.get pvc.annotations state_key == new_state) ≡ false)
      × ((Dict.get pvc.annotations state_key == "idle") ≡ true)
      × (env (event (get_pvc pvc.namespace pvc.name) (ok pvc) ∷ h)
            (update_pvc pvc.namespace (with_state pvc new_state))
          ≡ ok tt)

  abbrev pub claimed_after : History → History
  claimed_after h =
      event (update_pvc pvc.namespace (with_state pvc new_state)) (ok tt)
      ∷ event (get_pvc pvc.namespace pvc.name) (ok pvc)
      ∷ h

  run-attempt :
      (h : History)
      → LetsThrough h
      → run env h (set_pvc_state_attempt pvc.name pvc.namespace new_state)
        ≡ (returned tt, claimed_after h)
  unfolding run set_pvc_state_attempt leave_state
  run-attempt h (read, alive, other, idle, accepted) =
      rw (run, read, alive, other, idle, run, accepted) refl

  -- One read and one write, and the claim is in the wanted state.
  pub run-set_pvc_state_to :
      (lib : Libraries)
      → IsLawful lib
      → (h : History) → LetsThrough h
      → run env h (set_pvc_state_to lib pvc.name pvc.namespace new_state)
        ≡ (returned tt, claimed_after h)
  unfolding set_pvc_state_to
  run-set_pvc_state_to lib law h lets = run-retry env lib law _ h _ (run-attempt h lets)

  -- The same, in front of the rest of a program.
  pub run-set_pvc_state_to-then {ℓ} :
      {A : Type ℓ} (lib : Libraries)
      → IsLawful lib
      → (h : History) → LetsThrough h
      → (f : Unit {0} → Prog A)
      → run env h (set_pvc_state_to lib pvc.name pvc.namespace new_state >>= f)
        ≡ run env (claimed_after h) (f tt)
  run-set_pvc_state_to-then lib law h lets f =
      run-bind env f (set_pvc_state_to lib pvc.name pvc.namespace new_state) h
      ∙ ap (λ end. resume env f end.0 end.1) (run-set_pvc_state_to lib law h lets)
