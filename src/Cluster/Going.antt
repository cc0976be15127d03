-- ===== src/Cluster/Going.antt =====
-- Programs that go on from their first call, when it gets a certain answer.
use mathlib.Core.Path.{ap}
use subprovisioner.Base.{◌≡◌}
use subprovisioner.Kube.Calls.{Call, Reply}
use subprovisioner.Kube.Prog.{Prog, ret, call, ◌>>=◌}
use subprovisioner.Kube.Libraries.{Attempts, last, again, or_again}

-- The program's first call is this one, and it returns when it gets this answer.
pub data PassesWith (c : Call) (r : Reply c) (m : Prog (Unit {0})) : Type 0 where
  passes : (k : Reply c → Prog (Unit {0})) → m ≡ call c k → k r ≡ ret tt → PassesWith c r m

pub PassesWith-Attempts :
    (c : Call) (r : Reply c) {attempt whole : Prog (Unit {0})}
    → PassesWith c r attempt
    → Attempts attempt whole
    → PassesWith c r whole
unfolding or_again
PassesWith-Attempts c r first last = first
PassesWith-Attempts c r (passes k e ends) (again {later} more) =
    passes (λ r. or_again (k r) later) (ap (λ m. or_again m later) e)
      (ap (λ m. or_again m later) ends)

-- The program's first call is this one, and with this answer it goes on as the given program.
pub data GoesOn {ℓ} {A : Type ℓ} (c : Call) (r : Reply c) (m rest : Prog A) : Type ℓ where
  goes_on : (k : Reply c → Prog A) → m ≡ call c k → k r ≡ rest → GoesOn c r m rest

pub GoesOn-take {ℓ} :
    {A : Type ℓ} (c : Call) (r : Reply c) (m : Prog (Unit {0})) (f : Unit {0} → Prog A)
    → PassesWith c r m
    → GoesOn c r (m >>= f) (f tt)
GoesOn-take c r m f (passes k e ends) =
    goes_on (λ r. k r >>= f) (ap (λ m. m >>= f) e) (ap (λ m. m >>= f) ends)

pub GoesOn-bind {ℓ κ} :
    {A : Type ℓ} {B : Type κ} (c : Call) (r : Reply c) (m rest : Prog A) (f : A → Prog B)
    → GoesOn c r m rest
    → GoesOn c r (m >>= f) (rest >>= f)
GoesOn-bind c r m rest f (goes_on k e ends) =
    goes_on (λ r. k r >>= f) (ap (λ m. m >>= f) e) (ap (λ m. m >>= f) ends)
