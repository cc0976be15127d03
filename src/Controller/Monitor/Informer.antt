-- ===== src/Controller/Monitor/Informer.antt =====
-- pkg/csiplugin/controller/monitor.go, `Run`: which claims the monitor is told about, and what it does when it
-- is.
use subprovisioner.Base.{ℕ, String, ◌≡◌, refl, ◌∙◌, Bool, true, false, ◌||◌, Option, none}
use subprovisioner.Base.Dict
use subprovisioner.Base.Dict.{Dict}
use subprovisioner.Base.Int.{ℤ}
use subprovisioner.Kube.Objects.{Pvc}
use subprovisioner.Kube.Errors.{ok}
use subprovisioner.Kube.Calls.{get_pvc, queue_add, start_controller}
use subprovisioner.Kube.Prog.{Prog, ret, unfinished, call}
use subprovisioner.Kube.Libraries.{Libraries}
use subprovisioner.Common.Config.{key}
use subprovisioner.Common.Pvc.{is_set}
use subprovisioner.Controller.Create.{Backing, new_volume_patch}
use subprovisioner.Controller.Monitor.{on_pvc_event, process_answer, process_key}

-- The options of a list or a watch, down to what `optionsModifier` sets.
pub record ListOptions : Type 0 where
  pub label_selector : String
  pub field_selector : String

unfoldable pub options_modifier : ListOptions → ListOptions
options_modifier options = record options { label_selector = key "/uid" }

-- The arguments of `cache.NewFilteredListWatchFromClient`. No namespace stands for all of them.
pub record ListWatch : Type 0 where
  pub resource : String
  pub namespace : Option String
  pub modifier : ListOptions → ListOptions

abbrev pub pvc_list_watcher : ListWatch
pvc_list_watcher = record {
  resource = "persistentvolumeclaims";
  namespace = none;
  modifier = options_modifier;
}

-- The arguments of `cache.NewIndexerInformer`; there is no handler for a deletion and no resync.
pub record Informer : Type 0 where
  pub list_watch : ListWatch
  pub resync_period : ℕ
  pub add_func : Pvc → Prog (Unit {0})
  pub update_func : Pvc → Pvc → Prog (Unit {0})

pub record ControllerMonitor : Type 0 where
  pub image : String

-- The client set, the indexer and the queue are behind the calls.
pub record PvcDeletionController : Type 0 where
  pub image : String
  pub controller : Informer

unfoldable pub pvc_deletion_controller : Libraries → ControllerMonitor → PvcDeletionController
pvc_deletion_controller lib m = record {
  image = m.image;
  controller = record {
    list_watch = pvc_list_watcher;
    resync_period = 0;
    add_func = on_pvc_event lib;
    update_func = λ _ new. on_pvc_event lib new;
  };
}

-- The controller is started as a goroutine with its image, and `select {}` waits for ever.
unfoldable pub run_monitor : Libraries → ControllerMonitor → Prog (Unit {0})
unfolding pvc_deletion_controller
run_monitor lib m =
    let c = pvc_deletion_controller lib m in call (start_controller c.image) (λ _. unfinished)

-- What becomes of a claim that the monitor is told about.
pub record Watched (lib : Libraries) (rounds : ℕ) (m : ControllerMonitor) (queue_key : String)
    (pvc : Pvc) : Type 0 where
  pub added :
      (pvc_deletion_controller lib m).controller.add_func pvc ≡ call (queue_add queue_key) ret
  pub updated :
      (old : Pvc)
      → (pvc_deletion_controller lib m).controller.update_func old pvc
        ≡ call (queue_add queue_key) ret
  pub processed :
      process_key lib rounds (pvc_deletion_controller lib m).image queue_key
      ≡ call (get_pvc pvc.namespace pvc.name) (process_answer lib rounds m.image queue_key)

-- The labels of a claim after the patch of a new volume: those of the patch and those that it had.
abbrev pub IsMarked : Backing → ℤ → Pvc → Pvc → Type 0
IsMarked backing capacity old pvc =
    (k : String)
    → Dict.has pvc.labels k
      ≡ (Dict.has (new_volume_patch backing old capacity).labels k || Dict.has old.labels k)

module _ (lib : Libraries) (rounds : ℕ) (m : ControllerMonitor) (pvc : Pvc)
    (queue_key : String) where
  deleting-Watched :
      lib.meta_namespace_key pvc ≡ ok queue_key
      → lib.split_meta_namespace_key queue_key ≡ ok (pvc.namespace, pvc.name)
      → is_set pvc.deletion_timestamp ≡ true
      → Watched lib rounds m queue_key pvc
  unfolding pvc_deletion_controller on_pvc_event process_key
  deleting-Watched keyed named deleting = record {
    added = rw (deleting, keyed) refl;
    updated = λ old. rw (deleting, keyed) refl;
    processed = rw named refl;
  }

  ignored :
      is_set pvc.deletion_timestamp ≡ false
      → ((pvc_deletion_controller lib m).controller.add_func pvc ≡ ret tt)
        × ((old : Pvc) → (pvc_deletion_controller lib m).controller.update_func old pvc ≡ ret tt)
  unfolding pvc_deletion_controller on_pvc_event
  ignored alive = (rw alive refl, λ old. rw alive refl)

  -- If a bare key selects the objects that have the label, and the queue's key of a claim is taken apart
  -- into its namespace and name: every claim that a creation has marked is selected by the monitor's
  -- watch; if it is being deleted, its addition and each of its updates queue its key, and the worker
  -- that takes the key reads that claim; if it is not, neither its addition nor its updates call
  -- anything.
  pub marked-Watched :
      (selects : String → Dict → Bool)
      → ((labels : Dict) → selects (key "/uid") labels ≡ Dict.has labels (key "/uid"))
      → lib.meta_namespace_key pvc ≡ ok queue_key
      → lib.split_meta_namespace_key queue_key ≡ ok (pvc.namespace, pvc.name)
      → (backing : Backing) (capacity : ℤ) (old : Pvc) → IsMarked backing capacity old pvc
      → (options : ListOptions)
      → (selects
            ((pvc_deletion_controller lib m).controller.list_watch.modifier options).label_selector
            pvc.labels
          ≡ true)
        × (is_set pvc.deletion_timestamp ≡ true → Watched lib rounds m queue_key pvc)
        × (is_set pvc.deletion_timestamp ≡ false
            → ((pvc_deletion_controller lib m).controller.add_func pvc ≡ ret tt)
              × ((old : Pvc)
                  → (pvc_deletion_controller lib m).controller.update_func old pvc ≡ ret tt))
  unfolding pvc_deletion_controller options_modifier
  marked-Watched selects existence keyed named backing capacity old marked options =
      (existence pvc.labels ∙ marked (key "/uid"), deleting-Watched keyed named, ignored)
