-- ===== src/Common/Pvc/Claim.antt =====
-- `SetPvcStateTo`: which claims it writes, and after which read.
use subprovisioner.Base.{String, ◌≡◌, refl, ◌==◌, true, false, ◌∷◌, [], inl, eq_iff}
use subprovisioner.Base.Dict.{get-set}
use subprovisioner.Kube.Objects.{Pvc}
use subprovisioner.Kube.Errors.{Error, ok, err}
use subprovisioner.Kube.Prog.{Prog, ret, fail, call, lift, ◌>>=◌}
use subprovisioner.Kube.Calls.{Call, Event, event, History, get_pvc, update_pvc, back_off}
use subprovisioner.Kube.Contract.{
  Lasting, Meets, Success, Saw, Outcome, returned, failed, polling, Meets-if, Meets-then,
  Meets-weaken,
}
use subprovisioner.Kube.Libraries.{Libraries, IsLawful}
use subprovisioner.Kube.Retries.{Renewed, Meets-retry}
use subprovisioner.Common.Pvc.Nodes.{state_of}
use subprovisioner.Common.Pvc.{
  state_key, is_set, with_state, leave_state, set_pvc_state_attempt, set_pvc_state_to,
}

module _ (Allowed : History → Call → Type 0) (Post : History → Outcome (Unit {0}) → Type 0)
    (h : History) where
  -- The `switch` has three kinds of ends.
  Meets-leave_state :
      (namespace : String) (pvc : Pvc) (new_state state : String)
      → ((e : Error) → Meets Allowed Post h (fail e))
      → ((state == new_state) ≡ true → Meets Allowed Post h (ret tt))
      → ((state == "idle") ≡ true
          → Meets Allowed Post h (call (update_pvc namespace (with_state pvc new_state)) lift))
      → Meets Allowed Post h (leave_state namespace pvc new_state state)
  unfolding leave_state
  Meets-leave_state namespace pvc new_state state refused there idle =
      Meets-if Allowed Post h (state == new_state) _ _ there
        λ _. Meets-if Allowed Post h (state == "idle") _ _ idle (λ _. refused _)

module _ (namespace name new_state : String) where
  -- The volume was seen in the wanted state and not being deleted, or was put into that state.
  abbrev pub Claimed : Event → Type 0
  Claimed (event (get_pvc n m) (ok pvc)) =
      (n ≡ namespace)
      × (m ≡ name)
      × (is_set pvc.deletion_timestamp ≡ false)
      × ((state_of pvc == new_state) ≡ true)
  Claimed (event (update_pvc n written) (ok _)) =
      (n ≡ namespace) × ((state_of written == new_state) ≡ true)
  Claimed _ = ⊥

  -- The latest event was a read of the claim, idle and not being deleted, and the update is what was
  -- read in the wanted state.
  abbrev pub IsClaim : History → Pvc → Type 0
  IsClaim (event (get_pvc n m) (ok pvc) ∷ _) written =
      (n ≡ namespace)
      × (m ≡ name)
      × (is_set pvc.deletion_timestamp ≡ false)
      × ((state_of pvc == "idle") ≡ true)
      × (written ≡ with_state pvc new_state)
  IsClaim _ _ = ⊥

  -- The calls of `SetPvcStateTo`.
  abbrev pub ClaimOrder : History → Call → Type 0
  ClaimOrder h (get_pvc n m) = (n ≡ namespace) × (m ≡ name)
  ClaimOrder h (update_pvc n written) = (n ≡ namespace) × IsClaim h written
  ClaimOrder h back_off = Unit
  ClaimOrder h _ = ⊥

  pub with_state-state : (pvc : Pvc) → (state_of (with_state pvc new_state) == new_state) ≡ true
  with_state-state pvc =
      rw (get-set pvc.annotations state_key state_key new_state)
        ((eq_iff new_state new_state).1 refl)

  module _ (Allowed : History → Call → Type 0)
      (within : (h : History) (c : Call) → ClaimOrder h c → Allowed h c) (Keeps : History → Type 0)
      (lasting : Lasting Keeps) where
    -- What is known when the volume is taken.
    abbrev pub Taken : History → Unit {0} → Type 0
    Taken g _ = Keeps g × Saw Claimed g

    Meets-attempt :
        (h : History)
        → Keeps h
        → Meets Allowed
            (Renewed Allowed Keeps (Success Taken))
            h
            (set_pvc_state_attempt name namespace new_state)
    unfolding Meets set_pvc_state_attempt
    Meets-attempt h keeps = (
      within h _ (refl, refl),
      elim [
        | err e ↦ (tt, lasting h (event (get_pvc namespace name) (err e)) keeps)
        | ok pvc ↦
            let read = event (get_pvc namespace name) (ok pvc) in
            let post = Renewed Allowed Keeps (Success Taken) in
            let kept : Keeps (read ∷ h) = lasting h read keeps in
            Meets-if Allowed post (read ∷ h) (is_set pvc.deletion_timestamp) _ _ (λ _. (tt, kept))
              λ alive.
                Meets-leave_state Allowed post (read ∷ h) namespace pvc new_state (state_of pvc)
                  (λ _. (tt, kept)) (λ there. ((kept, inl (refl, refl, alive, there)), kept))
                  (λ idle. (
                    within (read ∷ h) _ (refl, (refl, refl, alive, idle, refl)),
                    elim [
                      | ok _ ↦
                          let wrote =
                            event (update_pvc namespace (with_state pvc new_state)) (ok tt) in
                          let done : Keeps (wrote ∷ read ∷ h) = lasting (read ∷ h) wrote kept in
                          ((done, inl (refl, with_state-state pvc)), done)
                      | err e ↦ (
                        tt,
                        lasting (read ∷ h)
                            (event (update_pvc namespace (with_state pvc new_state)) (err e)) kept,
                      )
                    ],
                  ))
      ],
    )

    pub Meets-set_pvc_state_to :
        (lib : Libraries)
        → IsLawful lib
        → (h : History) → Keeps h
        → Meets Allowed (Success Taken) h (set_pvc_state_to lib name namespace new_state)
    unfolding set_pvc_state_to
    Meets-set_pvc_state_to lib law =
        Meets-retry Allowed Keeps (Success Taken) (λ h _. within h back_off tt)
          (λ h. lasting h (event back_off tt)) lib law
          (set_pvc_state_attempt name namespace new_state) Meets-attempt

    pub set_pvc_state_to-then {ℓ} :
        {B : Type ℓ} (Q : History → B → Type 0)
        → (lib : Libraries) → IsLawful lib
        → (f : Unit {0} → Prog B) (h : History) → Keeps h
        → ((g : History) → Keeps g → Saw Claimed g → Meets Allowed (Success Q) g (f tt))
        → Meets Allowed (Success Q) h (set_pvc_state_to lib name namespace new_state >>= f)
    set_pvc_state_to-then Q lib law f h keeps rest =
        Meets-then Allowed Taken Q h _ f (Meets-set_pvc_state_to lib law h keeps)
          λ g _ at. rest g at.0 at.1

  -- Whatever the answers are, `SetPvcStateTo` reads only the claim that it is given, and writes it
  -- only right after a read that found it idle and not being deleted, as it was read but for the
  -- state, which becomes the wanted one. If it returns, such a write was accepted or the claim was
  -- found in the wanted state and not being deleted.
  pub set_pvc_state_to_claims :
      (lib : Libraries)
      → IsLawful lib
      → Meets ClaimOrder
          (Success (λ h _. Saw Claimed h))
          []
          (set_pvc_state_to lib name namespace new_state)
  set_pvc_state_to_claims lib law =
      Meets-weaken ClaimOrder
        (Success (Taken ClaimOrder (λ _ _ within. within) (λ _. Unit {0}) (λ _ _ _. tt))) _ [] _
        (Meets-set_pvc_state_to ClaimOrder (λ _ _ within. within) (λ _. Unit {0}) (λ _ _ _. tt) lib
          law [] tt)
        λ g o.
          elim o
            as (λ o.
              Success (λ h _. Unit {0} × Saw Claimed h) g o → Success (λ h _. Saw Claimed h) g o) [
                | returned _ ↦ λ at. at.1
                | failed _ ↦ λ _. tt
                | polling ↦ λ _. tt
              ]
