-- ===== src/Controller/Monitor/Worker.antt =====
-- When the monitor's workers start and stop.
use mathlib.Core.Bool.{false≢true}
use subprovisioner.Base.{
  ℕ, zero, suc, String, ◌≡◌, refl, Bool, true, false, [], ◌∷◌, inl, inr, if◌then◌else◌,
}
use subprovisioner.Kube.Calls.{
  Call, Event, event, History, queue_get, queue_shut_down, start_informer, wait_for_cache_sync,
  start_worker, wait_for_stop, handle_error,
}
use subprovisioner.Kube.Contract.{
  Outcome, returned, failed, polling, Meets, Meets-bind, Saw, AnyCall,
}
use subprovisioner.Kube.Prog.{Prog, ret}
use subprovisioner.Kube.Libraries.{Libraries}
use subprovisioner.Controller.Monitor.{process_item, process_next_item, run_worker, monitor_run}
use subprovisioner.Controller.Monitor.Queue.{KeySettled, Meets-process_key}

-- The queue was shut down when an item was asked for.
abbrev pub ToldToStop : Event → Type 0
ToldToStop (event queue_get (_, shutdown)) = shutdown ≡ true
ToldToStop _ = ⊥

abbrev pub ItemEnd : History → Outcome Bool → Type 0
ItemEnd h (returned true) = Unit
ItemEnd h (returned false) = Saw ToldToStop h
ItemEnd h (failed _) = ⊥
ItemEnd h polling = Unit

abbrev pub WorkerEnd : History → Outcome (Unit {0}) → Type 0
WorkerEnd h (returned _) = Saw ToldToStop h
WorkerEnd h (failed _) = ⊥
WorkerEnd h polling = Unit

went_on :
    (g : History) (more : Bool) (later : Prog (Unit {0}))
    → Meets AnyCall WorkerEnd g later
    → ItemEnd g (returned more)
    → Meets AnyCall WorkerEnd g (if more then later else ret tt)
went_on g true later rest _ = rest
went_on g false later rest stopped = unfold Meets in stopped

module _ (lib : Libraries) (rounds : ℕ) (image : String) where
  Meets-process_item :
      (h : History) (queue_key : String) (shutdown : Bool)
      → Meets AnyCall ItemEnd
          (event queue_get (queue_key, shutdown) ∷ h)
          (process_item lib rounds image queue_key shutdown)
  Meets-process_item h queue_key true = unfold Meets in inl refl
  Meets-process_item h queue_key false =
      Meets-bind AnyCall (KeySettled queue_key) ItemEnd _ _ _
        (Meets-process_key lib rounds image queue_key _)
        λ g. elim [
          | returned _ ↦ λ _. unfold Meets in (tt, λ _. tt)
          | failed e ↦ λ failure. elim failure [ ]
          | polling ↦ λ _. tt
        ]

  Meets-process_next_item :
      (h : History) → Meets AnyCall ItemEnd h (process_next_item lib rounds image)
  unfolding Meets process_next_item
  Meets-process_next_item h = (tt, λ taken. Meets-process_item h taken.0 taken.1)

  -- Whatever the answers are, and whatever errors the items end with: a worker never fails, and it
  -- returns only after the queue answered that it is shut down.
  run_worker_stops :
      (items : ℕ) (h : History) → Meets AnyCall WorkerEnd h (run_worker lib rounds image items)
  unfolding run_worker
  run_worker_stops zero h = unfold Meets in tt
  run_worker_stops (suc items) h =
      Meets-bind AnyCall ItemEnd WorkerEnd h _ _ (Meets-process_next_item h) λ g. elim [
        | returned more ↦
            went_on g more (run_worker lib rounds image items) (run_worker_stops items g)
        | failed e ↦ λ failure. elim failure [ ]
        | polling ↦ λ _. tt
      ]

abbrev pub Synced : Event → Type 0
Synced (event wait_for_cache_sync synced) = synced ≡ true
Synced _ = ⊥

abbrev pub Started : Event → Type 0
Started (event start_informer _) = Unit
Started _ = ⊥

-- Which calls the monitor makes, and when.
abbrev pub MonitorOrder : History → Call → Type 0
MonitorOrder h start_informer = Unit
MonitorOrder h wait_for_cache_sync = Saw Started h
MonitorOrder h start_worker = Saw Synced h
MonitorOrder h wait_for_stop = Saw Synced h
MonitorOrder h (handle_error _) = ¬ Saw Synced h
MonitorOrder h queue_shut_down = Unit
MonitorOrder h _ = ⊥

-- How many workers were started.
abbrev pub workers : History → ℕ
workers [] = 0
workers (event start_worker _ ∷ h) = suc (workers h)
workers (_ ∷ h) = workers h

-- The queue is shut down at the end, after four workers and the stop, or after an error and no worker.
abbrev pub MonitorEnd : History → Outcome (Unit {0}) → Type 0
MonitorEnd (event queue_shut_down _ ∷ event wait_for_stop _ ∷ h) (returned _) = workers h ≡ 4
MonitorEnd (event queue_shut_down _ ∷ event (handle_error _) _ ∷ h) (returned _) = workers h ≡ 0
MonitorEnd _ _ = ⊥

not-Synced : Saw Synced (event wait_for_cache_sync false ∷ event start_informer tt ∷ []) → ⊥
not-Synced (inl e) = false≢true e
not-Synced (inr (inl never)) = never
not-Synced (inr (inr other)) = other

-- Whatever the answers are: the caches are waited for only after the informer was started, workers
-- only start after the caches were synchronised, an error is reported only if they were not; and at
-- the end the queue is shut down, after four workers and the stop, or after an error and no worker.
monitor_run_order : Meets MonitorOrder MonitorEnd [] monitor_run
unfolding Meets monitor_run
monitor_run_order = (
  tt,
  λ _. (
    inl tt,
    elim [
      | true ↦ (
        inl refl,
        λ _. (
          inr (inl refl),
          λ _. (
            inr (inr (inl refl)),
            λ _. (
              inr (inr (inr (inl refl))),
              λ _. (inr (inr (inr (inr (inl refl)))), λ _. (tt, λ _. refl)),
            ),
          ),
        ),
      )
      | false ↦ (not-Synced, λ _. (tt, λ _. refl))
    ],
  ),
)
