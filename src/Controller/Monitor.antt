-- ===== src/Controller/Monitor.antt =====
-- pkg/csiplugin/controller/monitor.go: the controller that deletes the image of a volume whose claim is
-- being deleted, and then lets the claim go.
pub mod Order
pub mod Finalizers
pub mod Queue
pub mod Worker
pub mod Chosen
pub mod Informer
use subprovisioner.Base.{
  ℕ, zero, suc, String, ◌==◌, Bool, true, false, ◌&&◌, List, [], ◌∷◌, if◌then◌else◌,
}
use subprovisioner.Base.Dict
use subprovisioner.Kube.Objects.{Pvc}
use subprovisioner.Kube.Errors.{Result, ok, err, is_not_found, plain}
use subprovisioner.Kube.Calls.{
  get_pvc, update_pvc, queue_get, queue_add, queue_done, queue_forget, queue_add_rate_limited,
  handle_error, queue_shut_down, start_informer, wait_for_cache_sync, start_worker, wait_for_stop,
}
use subprovisioner.Kube.Prog.{Prog, unfinished, ret, call, lift, catch, ◌>>=◌, ◌>>◌}
use subprovisioner.Kube.Libraries.{Libraries}
use subprovisioner.Common.Config.{
  key, generate_volume_image_path, generate_creation_job_name, generate_deletion_job_name,
}
use subprovisioner.Common.Pvc.{is_set}
use subprovisioner.Common.Job.{
  JobConfig, create_job, wait_for_job_to_succeed, delete_job_synchronously,
}
use subprovisioner.Controller.Snapshot.{backing_of}

abbrev pub cleanup : String
cleanup = key "/cleanup"

-- `pvcHasFinalizer`
unfoldable pub has_finalizer : List String → Bool
has_finalizer [] = false
has_finalizer (finalizer ∷ finalizers) =
    let rest = has_finalizer finalizers in if finalizer == cleanup then true else rest

-- The loop that takes the first such finalizer out, with its `break`.
unfoldable pub remove_finalizer : List String → List String
remove_finalizer [] = []
remove_finalizer (finalizer ∷ finalizers) =
    let rest = remove_finalizer finalizers in
    if finalizer == cleanup then finalizers else finalizer ∷ rest

unfoldable pub deletion_job : String → Pvc → JobConfig
deletion_job image pvc = record {
  name = generate_deletion_job_name pvc.uid;
  namespace = (backing_of pvc).pvc_namespace;
  labels = (key "/component", "volume-deletion") ∷ (key "/pvc-uid", pvc.uid) ∷ [];
  image = image;
  command = "rm" ∷ "-f" ∷ generate_volume_image_path pvc.uid ∷ [];
  args = [];
  backing_pvc_name = (backing_of pvc).pvc_name;
  backing_pvc_base_path = (backing_of pvc).base_path;
}

-- One attempt to take the finalizer off the claim.
unfoldable pub release_attempt : Pvc → Prog (Unit {0})
release_attempt pvc = do
  current ← call (get_pvc pvc.namespace pvc.name) lift
  call
      (update_pvc pvc.namespace
        (record current { finalizers = remove_finalizer current.finalizers }))
      lift

-- `AddFunc` and `UpdateFunc` of the informer: a claim that is being deleted is queued by its key.
unfoldable pub on_pvc_event : Libraries → Pvc → Prog (Unit {0})
on_pvc_event lib pvc =
    if is_set pvc.deletion_timestamp
    then elim (lib.meta_namespace_key pvc) [
      | ok queue_key ↦ call (queue_add queue_key) ret
      | err _ ↦ ret tt
    ]
    else ret tt

module _ (lib : Libraries) (rounds : ℕ) (image : String) where
  unfoldable pub delete_volume : Pvc → Prog (Unit {0})
  delete_volume pvc = do
    delete_job_synchronously rounds (generate_creation_job_name pvc.uid)
        (backing_of pvc).pvc_namespace
    create_job (deletion_job image pvc)
    wait_for_job_to_succeed rounds (generate_deletion_job_name pvc.uid)
        (backing_of pvc).pvc_namespace
    delete_job_synchronously rounds (generate_deletion_job_name pvc.uid)
        (backing_of pvc).pvc_namespace
    lib.retry_on_conflict (release_attempt pvc)

  -- The key goes back with a delay after an error, and is forgotten otherwise.
  abbrev pub conclude : String → Result (Unit {0}) → Prog (Unit {0})
  conclude queue_key (ok _) = call (queue_forget queue_key) ret
  conclude queue_key (err e) = do
    call (handle_error e) ret
    call (queue_add_rate_limited queue_key) ret

  unfoldable pub process_pvc : String → Pvc → Prog (Unit {0})
  process_pvc queue_key pvc =
      if Dict.get pvc.annotations (key "/staged-on-nodes") == "" && has_finalizer pvc.finalizers
      then catch (delete_volume pvc) >>= conclude queue_key
      else conclude queue_key (ok tt)

  abbrev pub process_answer : String → Result Pvc → Prog (Unit {0})
  process_answer queue_key (ok pvc) = process_pvc queue_key pvc
  process_answer queue_key (err e) =
      if is_not_found e then conclude queue_key (ok tt) else conclude queue_key (err e)

  abbrev pub process_named : String → Result (String × String) → Prog (Unit {0})
  process_named queue_key (err e) = conclude queue_key (err e)
  process_named queue_key (ok (pvc_namespace, pvc_name)) =
      call (get_pvc pvc_namespace pvc_name) (process_answer queue_key)

  unfoldable pub process_key : String → Prog (Unit {0})
  process_key queue_key = process_named queue_key (lib.split_meta_namespace_key queue_key)

  -- What follows `queue.Get`; `Done` is deferred, and the answer is false when the queue is shut down.
  abbrev pub process_item : String → Bool → Prog Bool
  process_item queue_key shutdown =
      if shutdown
      then ret false
      else (do process_key queue_key; call (queue_done queue_key) ret; ret true)

  unfoldable pub process_next_item : Prog Bool
  process_next_item = call queue_get λ taken. process_item taken.0 taken.1

  -- `for c.processNextItem() {}`, for a number of items.
  unfoldable pub run_worker : ℕ → Prog (Unit {0})
  run_worker zero = unfinished
  run_worker (suc items) =
      let later = run_worker items in process_next_item >>= λ more. if more then later else ret tt

-- `run`: the workers are goroutines, which `start_worker` stands for, and `ShutDown` is deferred.
unfoldable pub monitor_run : Prog (Unit {0})
monitor_run = do
  call start_informer ret
  synced ← call wait_for_cache_sync ret
  if synced
      then (do
        call start_worker ret
        call start_worker ret
        call start_worker ret
        call start_worker ret
        call wait_for_stop ret
        call queue_shut_down ret)
      else (do
        call (handle_error (plain "timed out waiting for caches to sync")) ret
        call queue_shut_down ret)
