-- ===== src/Ending/Monitor.antt =====
-- The monitor's items come to an end.
use subprovisioner.Base.{ℕ, String, true, false, ◌==◌, ◌&&◌}
use subprovisioner.Base.Dict
use subprovisioner.Kube.Objects.{Pvc}
use subprovisioner.Kube.Errors.{Result, ok, err, is_not_found}
use subprovisioner.Kube.Prog.{ret}
use subprovisioner.Kube.Calls.{queue_forget, queue_done, queue_add_rate_limited, handle_error}
use subprovisioner.Kube.Run.{Environment}
use subprovisioner.Kube.Libraries.{Libraries, IsLawful}
use subprovisioner.Kube.Ends.{
  Ends, Ends-ret, Ends-fail, Ends-call, Ends-if, Ends-lift, Ends-bind, Ends-catch, Ends-retry,
}
use subprovisioner.Common.Config.{key}
use subprovisioner.Common.Job.Ending.{PromptJobs, Ends-create-wait_then, Ends-delete_job}
use subprovisioner.Controller.Monitor.{
  has_finalizer, deletion_job, release_attempt, delete_volume, conclude, process_pvc,
  process_answer, process_named, process_key, process_next_item,
}

module _ (env : Environment) (lib : Libraries) (law : IsLawful lib) (rounds : ℕ)
    (prompt : PromptJobs env rounds) (image : String) where
  Ends-release : (pvc : Pvc) → Ends env (release_attempt pvc)
  unfolding release_attempt
  Ends-release pvc =
      Ends-call env _ _ (elim [
        | ok current ↦ Ends-call env _ _ (Ends-lift env)
        | err e ↦ Ends-fail env (Unit {0}) e
      ])

  Ends-delete_volume : (pvc : Pvc) → Ends env (delete_volume lib rounds image pvc)
  unfolding delete_volume deletion_job
  Ends-delete_volume pvc = Ends-bind env _ _ (Ends-delete_job env rounds prompt _ _) λ _.
      Ends-create-wait_then env rounds prompt (deletion_job image pvc) _ λ _.
        Ends-bind env _ _ (Ends-delete_job env rounds prompt _ _)
          λ _. Ends-retry env lib law (release_attempt pvc) (Ends-release pvc)

  Ends-conclude :
      (queue_key : String) (r : Result (Unit {0}))
      → Ends env (conclude lib rounds image queue_key r)
  Ends-conclude queue_key (ok _) = Ends-call env (queue_forget queue_key) ret (Ends-ret env)
  Ends-conclude queue_key (err e) =
      Ends-call env (handle_error e) _
        (λ _. Ends-call env (queue_add_rate_limited queue_key) ret (Ends-ret env))

  Ends-process_pvc :
      (queue_key : String) (pvc : Pvc) → Ends env (process_pvc lib rounds image queue_key pvc)
  unfolding process_pvc
  Ends-process_pvc queue_key pvc =
      Ends-if env
        (Dict.get pvc.annotations (key "/staged-on-nodes") == "" && has_finalizer pvc.finalizers) _
        _ (Ends-bind env _ _ (Ends-catch env _ (Ends-delete_volume pvc)) (Ends-conclude queue_key))
        (Ends-conclude queue_key (ok tt))

  Ends-process_answer :
      (queue_key : String) (answer : Result Pvc)
      → Ends env (process_answer lib rounds image queue_key answer)
  Ends-process_answer queue_key (ok pvc) = Ends-process_pvc queue_key pvc
  Ends-process_answer queue_key (err e) =
      Ends-if env (is_not_found e) _ _ (Ends-conclude queue_key (ok tt))
        (Ends-conclude queue_key (err e))

  Ends-process_named :
      (queue_key : String) (named : Result (String × String))
      → Ends env (process_named lib rounds image queue_key named)
  Ends-process_named queue_key (err e) = Ends-conclude queue_key (err e)
  Ends-process_named queue_key (ok (namespace, name)) =
      Ends-call env _ _ (Ends-process_answer queue_key)

  Ends-process_key : (queue_key : String) → Ends env (process_key lib rounds image queue_key)
  unfolding process_key
  Ends-process_key queue_key = Ends-process_named queue_key (lib.split_meta_namespace_key queue_key)

  pub Ends-process_next_item : Ends env (process_next_item lib rounds image)
  unfolding process_next_item
  Ends-process_next_item = Ends-call env _ _ λ taken. Ends-if env taken.1 _ _ (Ends-ret env false) (
      Ends-bind env _ _ (Ends-process_key taken.0)
        λ _. Ends-call env (queue_done taken.0) _ (λ _. Ends-ret env true))
