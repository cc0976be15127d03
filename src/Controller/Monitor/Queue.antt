-- ===== src/Controller/Monitor/Queue.antt =====
-- What becomes of a key that the monitor takes from its queue.
use subprovisioner.Base.{ℕ, ◌==◌, ◌&&◌, String, ◌≡◌, refl, Bool, true, false, [], ◌∷◌}
use subprovisioner.Base.Dict
use subprovisioner.Common.Config.{key}
use subprovisioner.Kube.Objects.{Pvc}
use subprovisioner.Kube.Errors.{Result, ok, err, is_not_found}
use subprovisioner.Kube.Calls.{
  event, History, queue_get, queue_done, queue_forget, queue_add_rate_limited, handle_error,
}
use subprovisioner.Kube.Prog.{Prog, ret, fail, unfinished, call, catch}
use subprovisioner.Kube.Contract.{
  Outcome, returned, failed, polling, Meets, Meets-bind, Meets-if, AnyCall,
}
use subprovisioner.Kube.Run.{Environment, run, Meets-run}
use subprovisioner.Kube.Libraries.{Libraries}
use subprovisioner.Controller.Monitor.{
  conclude, process_pvc, process_answer, process_named, process_key, process_item,
  process_next_item, delete_volume, has_finalizer,
}

-- The last events of an item: forgotten, or put back with a delay after its error was reported, and
-- in both cases done.
abbrev pub Settled : String → History → Type 0
Settled queue_key (event (queue_forget k) _ ∷ _) = k ≡ queue_key
Settled queue_key (event (queue_add_rate_limited k) _ ∷ event (handle_error _) _ ∷ _) =
    k ≡ queue_key
Settled queue_key _ = ⊥

abbrev pub Finished : String → Bool → History → Type 0
Finished queue_key true (event (queue_done k) _ ∷ h) = (k ≡ queue_key) × Settled queue_key h
Finished queue_key false (event queue_get (_, shutdown) ∷ []) = shutdown ≡ true
Finished _ _ _ = ⊥

abbrev pub ItemDone : String → History → Outcome Bool → Type 0
ItemDone queue_key h (returned more) = Finished queue_key more h
ItemDone queue_key h (failed _) = ⊥
ItemDone queue_key h polling = Unit

abbrev pub KeySettled : String → History → Outcome (Unit {0}) → Type 0
KeySettled queue_key h (returned _) = Settled queue_key h
KeySettled queue_key h (failed _) = ⊥
KeySettled queue_key h polling = Unit

abbrev NotFailed : History → Outcome (Result (Unit {0})) → Type 0
NotFailed h (failed _) = ⊥
NotFailed h _ = Unit

-- A caught error is no failure.
Meets-caught : (h : History) (m : Prog (Unit {0})) → Meets AnyCall NotFailed h (catch m)
unfolding Meets
Meets-caught h (ret a) = tt
Meets-caught h (fail e) = tt
Meets-caught h unfinished = tt
Meets-caught h (call c k) = (tt, λ r. Meets-caught _ (k r))

module _ (lib : Libraries) (rounds : ℕ) (image queue_key : String) where
  Meets-conclude :
      (h : History) (r : Result (Unit {0}))
      → Meets AnyCall (KeySettled queue_key) h (conclude lib rounds image queue_key r)
  unfolding Meets
  Meets-conclude h (ok _) = (tt, λ _. refl)
  Meets-conclude h (err e) = (tt, λ _. (tt, λ _. refl))

  Meets-process_pvc :
      (h : History) (pvc : Pvc)
      → Meets AnyCall (KeySettled queue_key) h (process_pvc lib rounds image queue_key pvc)
  unfolding process_pvc
  Meets-process_pvc h pvc =
      Meets-if AnyCall (KeySettled queue_key) h
        (Dict.get pvc.annotations (key "/staged-on-nodes") == "" && has_finalizer pvc.finalizers) _
        _
        (λ _.
          Meets-bind AnyCall NotFailed (KeySettled queue_key) h
            (catch (delete_volume lib rounds image pvc)) _ (Meets-caught h _)
            λ g. elim [
              | returned r ↦ λ _. Meets-conclude g r
              | failed e ↦ λ caught. caught
              | polling ↦ λ _. tt
            ])
        (λ _. Meets-conclude h (ok tt))

  Meets-process_answer :
      (h : History) (answer : Result Pvc)
      → Meets AnyCall (KeySettled queue_key) h (process_answer lib rounds image queue_key answer)
  Meets-process_answer h (ok pvc) = Meets-process_pvc h pvc
  Meets-process_answer h (err e) =
      Meets-if AnyCall (KeySettled queue_key) h (is_not_found e) _ _ (λ _. Meets-conclude h (ok tt))
        (λ _. Meets-conclude h (err e))

  Meets-process_named :
      (h : History) (named : Result (String × String))
      → Meets AnyCall (KeySettled queue_key) h (process_named lib rounds image queue_key named)
  unfolding Meets
  Meets-process_named h (err e) = Meets-conclude h (err e)
  Meets-process_named h (ok (namespace, name)) = (tt, λ answer. Meets-process_answer _ answer)

  pub Meets-process_key :
      (h : History)
      → Meets AnyCall (KeySettled queue_key) h (process_key lib rounds image queue_key)
  unfolding process_key
  Meets-process_key h = Meets-process_named h (lib.split_meta_namespace_key queue_key)

module _ (lib : Libraries) (rounds : ℕ) (image : String) where
  Meets-item :
      (queue_key : String) (shutdown : Bool)
      → Meets AnyCall
          (ItemDone queue_key)
          (event queue_get (queue_key, shutdown) ∷ [])
          (process_item lib rounds image queue_key shutdown)
  Meets-item queue_key true = unfold Meets in refl
  Meets-item queue_key false =
      Meets-bind AnyCall (KeySettled queue_key) (ItemDone queue_key) _ _ _
        (Meets-process_key lib rounds image queue_key _)
        λ g. elim [
          | returned _ ↦ λ settled. unfold Meets in (tt, λ _. (refl, settled))
          | failed e ↦ λ failure. elim failure [ ]
          | polling ↦ λ _. tt
        ]

-- Against every environment, taking an item never fails: unless a polling loop still waits, either
-- the queue is shut down and nothing else is called, or the item ends in one of two ways: the key that
-- was taken is forgotten and then done, or an error is reported, that key is put back with a delay
-- and then done.
pub process_next_item_settles :
    (lib : Libraries) (rounds : ℕ) (image : String) (env : Environment)
    → ItemDone
        (env [] queue_get).0
        (run env [] (process_next_item lib rounds image)).1
        (run env [] (process_next_item lib rounds image)).0
unfolding run process_next_item
process_next_item_settles lib rounds image env =
    let taken = env [] queue_get in
    Meets-run AnyCall (ItemDone taken.0) env (event queue_get taken ∷ []) _
      (Meets-item lib rounds image taken.0 taken.1)
