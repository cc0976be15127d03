-- ===== src/Kube/Libraries.antt =====
-- Code that the plugin calls and that is not its own, with what the plugin relies on.
use subprovisioner.Base.{String, List, ◌≡◌, contains, if◌then◌else◌}
use subprovisioner.Kube.Objects.{Pvc}
use subprovisioner.Kube.Errors.{Result, is_conflict}
use subprovisioner.Kube.Calls.{back_off}
use subprovisioner.Kube.Prog.{Prog, ret, fail, unfinished, call}

-- One attempt, and after a conflict and a pause another program.
unfoldable pub or_again : Prog (Unit {0}) → Prog (Unit {0}) → Prog (Unit {0})
or_again (ret a) later = ret a
or_again (fail e) later = if is_conflict e then call back_off (λ _. later) else fail e
or_again unfinished later = unfinished
or_again (call c k) later = call c (λ r. or_again (k r) later)

-- A program that makes one or more attempts, each after a conflict of the one before it. The last
-- attempt's outcome is handed on, also when it is a conflict.
pub data Attempts (attempt : Prog (Unit {0})) : Prog (Unit {0}) → Type 0 where
  last : Attempts attempt attempt
  again :
      {later : Prog (Unit {0})} → Attempts attempt later → Attempts attempt (or_again attempt later)

-- `retry.RetryOnConflict(retry.DefaultRetry, ...)`, the order in which Go walks the keys of a map,
-- the hexadecimal form of `sha256.Sum256`, and `cache.SplitMetaNamespaceKey` and
-- `cache.MetaNamespaceKeyFunc`.
pub record Libraries : Type 0 where
  pub retry_on_conflict : Prog (Unit {0}) → Prog (Unit {0})
  pub map_order : List String → List String
  pub sha256_hex : String → String
  pub split_meta_namespace_key : String → Result (String × String)
  pub meta_namespace_key : Pvc → Result String

-- The documented behaviour: the retry helper repeats the function after conflicts and only then, and
-- a walk over a map visits each key.
pub record IsLawful (lib : Libraries) : Type 0 where
  pub retries : (attempt : Prog (Unit {0})) → Attempts attempt (lib.retry_on_conflict attempt)
  pub visits :
      (keys : List String) (key : String) → contains (lib.map_order keys) key ≡ contains keys key
