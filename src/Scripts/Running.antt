-- ===== src/Scripts/Running.antt =====
-- One step of a script, and what is known of a tool's success and failure.
use mathlib.Core.Path.{subst}
use subprovisioner.Base.{ℕ, zero, suc, ◌≡◌, Bool, true, false, List, ◌∷◌, inl, inr, Bool-cases}
use subprovisioner.Scripts.{Directory, Command, Behaves, Tools, IsDocumented, run_script}

-- One command, and the rest of the script if it succeeded.
pub run_script-step :
    (exec : Tools) (P : Directory × Bool → Type 0) (stop : ℕ) (c : Command)
    (commands : List Command) (d : Directory)
    → P (d, false)
    → ((exec c d).1 ≡ false → P ((exec c d).0, false))
    → ((exec c d).1 ≡ true → (stop : ℕ) → P (run_script exec stop commands (exec c d).0))
    → P (run_script exec stop (c ∷ commands) d)
unfolding run_script
run_script-step exec P zero c commands d cut failed rest = cut
run_script-step exec P (suc stop) c commands d cut failed rest = elim (Bool-cases (exec c d).1) [
  | inl success ↦ rw success (rest success stop)
  | inr failure ↦ rw failure (failed failure)
]

pub success_Effect :
    (exec : Tools)
    → IsDocumented exec
    → (c : Command) (d : Directory) → (exec c d).1 ≡ true
    → Behaves d (exec c d).0 c true
success_Effect exec documented c d success =
    subst (Behaves d (exec c d).0 c) success (documented c d)

pub failure_Remains :
    (exec : Tools)
    → IsDocumented exec
    → (c : Command) (d : Directory) → (exec c d).1 ≡ false
    → Behaves d (exec c d).0 c false
failure_Remains exec documented c d failure =
    subst (Behaves d (exec c d).0 c) failure (documented c d)
