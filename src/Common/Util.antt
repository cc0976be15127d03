-- ===== src/Common/Util.antt =====
-- pkg/csiplugin/common/util.go
pub mod Device
pub mod Context
pub mod Ending
use Prim.Native.Nat.{bit_and}
use subprovisioner.Base.{ℕ, zero, suc, String, Bool, none, some, nat_eq, if◌then◌else◌}
use subprovisioner.Kube.Errors.{ok, err, is_not_exist}
use subprovisioner.Kube.Calls.{stat, context_err, sleep}
use subprovisioner.Kube.Prog.{Prog, ret, fail, unfinished, call}

-- `fs.ModeDevice` and `fs.ModeCharDevice`
abbrev pub mode_device : ℕ
mode_device = 0x4000000

abbrev pub mode_char_device : ℕ
mode_char_device = 0x200000

unfoldable pub is_block_device : ℕ → Bool
is_block_device mode = nat_eq (bit_and mode 0x4200000) mode_device

-- A context that is done stays done, so its error is read once.
unfoldable pub wait_until_file_is_block_device : ℕ → String → Prog (Unit {0})
unfolding is_block_device
wait_until_file_is_block_device zero name = unfinished
wait_until_file_is_block_device (suc rounds) name =
    let again = call (sleep 1) (λ _. wait_until_file_is_block_device rounds name) in
    call (stat name) λ r. elim r [
      | ok mode ↦ if is_block_device mode then ret tt else again
      | err e ↦
          if is_not_exist e
          then call context_err (λ done. elim done [ none ↦ again | some d ↦ fail d ])
          else fail e
    ]
