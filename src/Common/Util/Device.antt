-- ===== src/Common/Util/Device.antt =====
-- What `WaitUntilFileIsBlockDevice` waits for.
use subprovisioner.Base.{ℕ, zero, suc, String, ◌≡◌, refl, true, none, some, inl}
use subprovisioner.Kube.Errors.{ok, err, is_not_exist}
use subprovisioner.Kube.Calls.{Call, Event, event, History, stat, context_err, sleep}
use subprovisioner.Kube.Contract.{Lasting, Meets, Success, Saw, Meets-if}
use subprovisioner.Common.Util.{is_block_device, wait_until_file_is_block_device}

-- The path was seen to be a block device.
abbrev pub DeviceSeen : String → Event → Type 0
DeviceSeen path (event (stat p) (ok mode)) = (p ≡ path) × (is_block_device mode ≡ true)
DeviceSeen path _ = ⊥

abbrev pub IsLook : Call → Type 0
IsLook (stat _) = Unit
IsLook context_err = Unit
IsLook (sleep _) = Unit
IsLook _ = ⊥

module _ (Allowed : History → Call → Type 0) (Keeps : History → Type 0) (lasting : Lasting Keeps)
    (free : (h : History) (c : Call) → IsLook c → Allowed h c) (path : String) where
  abbrev pub Found : History → Unit {0} → Type 0
  Found h _ = Keeps h × Saw (DeviceSeen path) h

  pub Meets-wait_until_file_is_block_device :
      (rounds : ℕ) (h : History)
      → Keeps h
      → Meets Allowed (Success Found) h (wait_until_file_is_block_device rounds path)
  unfolding Meets wait_until_file_is_block_device
  Meets-wait_until_file_is_block_device zero h keeps = tt
  Meets-wait_until_file_is_block_device (suc rounds) h keeps = (
    free h _ tt,
    elim [
      | ok mode ↦
          let looked = lasting h (event (stat path) (ok mode)) keeps in
          Meets-if Allowed (Success Found) _ (is_block_device mode) _ _
            (λ device. (looked, inl (refl, device)))
            (λ _. (
              free _ _ tt,
              λ _. Meets-wait_until_file_is_block_device rounds _ (lasting _ _ looked),
            ))
      | err e ↦
          let looked = lasting h (event (stat path) (err e)) keeps in
          Meets-if Allowed (Success Found) _ (is_not_exist e) _ _
            (λ _. (
              free _ _ tt,
              elim [
                | none ↦ (
                  free _ _ tt,
                  λ _.
                      Meets-wait_until_file_is_block_device rounds _
                        (lasting _ _ (lasting _ (event context_err none) looked)),
                )
                | some d ↦ tt
              ],
            ))
            (λ _. tt)
    ],
  )
