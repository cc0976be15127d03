-- ===== src/Plugin/Interceptor.antt =====
-- Histories of the gRPC server with and without the logging of its interceptor.
use mathlib.Core.Path.{subst}
use subprovisioner.Base.{String, ◌≡◌, refl, sym, ◌∙◌, ap, [], ◌∷◌}
use subprovisioner.Kube.Calls.{Call, Reply, event, History, log_printf}
use subprovisioner.Kube.Prog.{Prog, ret, fail, unfinished, call, catch, ◌>>=◌}
use subprovisioner.Kube.Run.{Environment, run}
use subprovisioner.Plugin.{interceptor, report}

abbrev pub without_logs : History → History
without_logs [] = []
without_logs (event (log_printf _) _ ∷ h) = without_logs h
without_logs (event c r ∷ h) = event c r ∷ without_logs h

-- No answer depends on what was logged.
abbrev pub IgnoresLogs : Environment → Type 0
IgnoresLogs env = (h : History) (c : Call) → env h c ≡ env (without_logs h) c

without_logs-event :
    (h g : History) (c : Call) (r : Reply c)
    → without_logs h ≡ without_logs g
    → without_logs (event c r ∷ h) ≡ without_logs (event c r ∷ g)
without_logs-event h g (log_printf _) r same = same
without_logs-event h g c r same = ap (λ h. event c r ∷ h) same

module _ {ℓ} {A : Type ℓ} (env : Environment) (ignores : IgnoresLogs env)
    (full_method : String) where
  reported :
      (h g : History) (handler : Prog A)
      → without_logs h ≡ without_logs g
      → ((run env h (catch handler >>= report full_method)).0 ≡ (run env g handler).0)
        × (without_logs (run env h (catch handler >>= report full_method)).1
            ≡ without_logs (run env g handler).1)
  unfolding run
  reported h g (ret a) same = (refl, same)
  reported h g (fail e) same = (refl, same)
  reported h g unfinished same = (refl, same)
  reported h g (call c k) same =
      let answer : env h c ≡ env g c = ignores h c ∙ ap (λ h. env h c) same ∙ sym (ignores g c) in
      let direct = run env (event c (env g c) ∷ g) (k (env g c)) in
      subst
        (λ (r : Reply c).
          ((run env (event c r ∷ h) (catch (k r) >>= report full_method)).0 ≡ direct.0)
          × (without_logs (run env (event c r ∷ h) (catch (k r) >>= report full_method)).1
              ≡ without_logs direct.1))
        (sym answer)
        (reported (event c (env g c) ∷ h) (event c (env g c) ∷ g) (k (env g c))
          (without_logs-event h g c (env g c) same))

  -- Against every environment whose answers do not depend on what was logged, a handler behind the
  -- interceptor ends as it does without it, with an answer, an error or still polling, and makes
  -- the same calls with the same answers but for the logging.
  pub interceptor_lem :
      (h : History) (handler : Prog A)
      → ((run env h (interceptor full_method handler)).0 ≡ (run env h handler).0)
        × (without_logs (run env h (interceptor full_method handler)).1
            ≡ without_logs (run env h handler).1)
  unfolding run interceptor
  interceptor_lem h handler = reported _ h handler refl
