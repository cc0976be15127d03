-- ===== src/Tests/Deleting.antt =====
-- The monitor at work on the volume of the fixtures, alone and beside an expansion.
use subprovisioner.Base.{◌≡◌, true, false, ℕ, zero, suc, refl, some, [], ◌∷◌, inl, arith}
use subprovisioner.Base.Int.{pos}
use native.Mathlib.Decide.{ℕ_discrete}
use subprovisioner.Kube.Objects.{Pvc}
use subprovisioner.Kube.Errors.{ok, err, api, not_found}
use subprovisioner.Kube.Calls.{event, get_pvc, update_pvc, delete_job}
use subprovisioner.Kube.Prog.{ret}
use subprovisioner.Common.Job.{job_of, create_job, delete_job_synchronously}
use subprovisioner.Common.Pvc.{is_set, with_state}
use subprovisioner.Common.Pvc.Consistency.{IsConsistent}
use subprovisioner.Common.Config.{generate_creation_job_name, generate_deletion_job_name}
use subprovisioner.Controller.Snapshot.{backing_of}
use subprovisioner.Controller.Monitor.{
  has_finalizer, deletion_job, delete_volume, process_pvc, process_key,
}
use subprovisioner.Controller.Monitor.Chosen.{LetsDelete, live_volume_deleted}
use subprovisioner.Kube.Run.{Environment, run}
use subprovisioner.Kube.Contract.{Saw}
use subprovisioner.Common.Job.Polling.{JobMade, JobSucceeded}
use subprovisioner.Controller.Monitor.Informer.{
  ControllerMonitor, pvc_deletion_controller, options_modifier, Watched, IsMarked, marked-Watched,
}
use subprovisioner.Base.Dict
use subprovisioner.Cluster.{System, Reach, here, next, act}
use subprovisioner.Cluster.Roles.{unstager, remover}
use subprovisioner.Cluster.Workers.{Worker, expander, attacher, deleter, bystander, role_of, work}
use subprovisioner.Cluster.Exclusive.{Apart, Start}
use subprovisioner.Cluster.Joining.{not_taker}
use subprovisioner.Cluster.Overlapping.{Overlapped, deletion_overlaps}
use subprovisioner.Cluster.Deleting.{Unused, deletions_run_unstaged}
use subprovisioner.Tests.Fixtures.{
  libraries, libraries-IsLawful, idle_pvc, stage_request, quiet, backing,
}
use subprovisioner.Tests.Claims.{idle_pvc-IsConsistent}

abbrev dying_pvc : Pvc
dying_pvc = record idle_pvc { deletion_timestamp = some "2024-05-01T00:00:00Z" }

dying_pvc-IsConsistent : IsConsistent dying_pvc
dying_pvc-IsConsistent = record {
  names = idle_pvc-IsConsistent.names;
  staged_nodes = idle_pvc-IsConsistent.staged_nodes;
}

abbrev staging_and_deletion : ℕ → Worker "default" "data"
staging_and_deletion zero = attacher "img" "n1" stage_request refl refl (refl, (refl, (refl, tt)))
staging_and_deletion (suc zero) = deleter "img" "data"
staging_and_deletion (suc (suc _)) = bystander

staging_and_deletion-Apart : Apart staging_and_deletion
staging_and_deletion-Apart zero j purpose e _ =
    absurd (not_taker (role_of (staging_and_deletion 0)) tt purpose e)
staging_and_deletion-Apart (suc zero) j purpose e _ = absurd (not_taker remover tt purpose e)
staging_and_deletion-Apart (suc (suc _)) j purpose e _ =
    absurd (not_taker (unstager "") tt purpose e)

abbrev before : System
before = record {
  server = record { claim = dying_pvc; used = "7" ∷ [] };
  actors = λ i. record {
    history = [];
    program = work libraries 3 "default" "data" (staging_and_deletion i);
  };
}

before-Start : Start libraries libraries-IsLawful 3 "default" "data" staging_and_deletion before
before-Start = record { consistent = dying_pvc-IsConsistent; current = refl; begun = λ i. refl }

-- The monitor reads the claim and finds the creation job gone.
unfoldable deleting : (t : System) × Reach before t
unfolding process_pvc has_finalizer delete_volume delete_job_synchronously backing_of
    generate_creation_job_name ℕ_discrete
deleting = (
  _,
  next
      (next here
        (act 1 (get_pvc "default" "data") _ (ok dying_pvc) before.server refl (refl, refl)))
      (act 1 (delete_job "storage" "subprovisioner-create-1234") _ (err (api not_found))
        before.server refl refl),
)

deletions_run_unstaged_example : Unused staging_and_deletion (deleting.0)
unfolding deleting process_pvc has_finalizer delete_volume delete_job_synchronously create_job
    deletion_job backing_of generate_creation_job_name ℕ_discrete
deletions_run_unstaged_example =
    (deletions_run_unstaged libraries libraries-IsLawful 3 "default" "data" staging_and_deletion
        staging_and_deletion-Apart before before deleting.0 before-Start here refl 1 refl deleting.1
        refl).1
      "storage" (job_of (deletion_job "img" dying_pvc)) _ refl

abbrev expansion_and_deletion : ℕ → Worker "default" "data"
expansion_and_deletion zero = expander idle_pvc refl refl "img" (pos 16384)
expansion_and_deletion (suc zero) = deleter "img" "data"
expansion_and_deletion (suc (suc _)) = bystander

-- The expansion has taken the volume, and then the claim was deleted.
abbrev expanding_state : System
expanding_state = record {
  server = record { claim = with_state dying_pvc "expanding"; used = "7" ∷ [] };
  actors = λ i. elim (ℕ_discrete 0 i) [
    | yes _ ↦ record {
      history = event (update_pvc "default" (with_state idle_pvc "expanding")) (ok tt) ∷ [];
      program = ret tt;
    }
    | no _ ↦ record {
      history = [];
      program = work libraries 3 "default" "data" (expansion_and_deletion i);
    }
  ];
}

deletion_overlaps_example :
    Overlapped libraries libraries-IsLawful 2 "default" "data" expansion_and_deletion "img"
      expanding_state 0 1
unfolding ℕ_discrete has_finalizer
deletion_overlaps_example =
    deletion_overlaps libraries libraries-IsLawful 2 "default" "data" expansion_and_deletion
      expanding_state 0 1 "img" "data" (omega arith) refl (refl, refl) (inl (refl, refl), tt)

-- The creation job is gone; everything else is accepted.
abbrev created_before : Environment
created_before h (delete_job _ _) = err (api not_found)
created_before h c = quiet c

created_before-LetsDelete : LetsDelete created_before "img" idle_pvc
created_before-LetsDelete = record { gone = λ h. refl; makes = λ h. refl; succeeds = λ h. refl }

live_volume_deleted_example :
    Saw
      (JobMade (deletion_job "img" idle_pvc))
      (run created_before [] (process_key libraries 3 "img" "data")).1
    × Saw
        (JobSucceeded "storage" "subprovisioner-delete-1234")
        (run created_before [] (process_key libraries 3 "img" "data")).1
unfolding has_finalizer backing_of generate_deletion_job_name
live_volume_deleted_example =
    live_volume_deleted libraries 2 "img" "data" "default" "data" idle_pvc created_before refl refl
      (refl, refl) created_before-LetsDelete

abbrev unlabelled_pvc : Pvc
unlabelled_pvc = record idle_pvc { labels = [] }

dying_pvc-IsMarked : IsMarked backing (pos 8192) unlabelled_pvc dying_pvc
dying_pvc-IsMarked k = ground arith

abbrev monitor : ControllerMonitor
monitor = record { image = "img" }

marked-Watched_example :
    (Dict.has dying_pvc.labels "subprovisioner.gitlab.io/uid" ≡ true)
    × (is_set dying_pvc.deletion_timestamp ≡ true → Watched libraries 3 monitor "data" dying_pvc)
    × (is_set dying_pvc.deletion_timestamp ≡ false
        → ((pvc_deletion_controller libraries monitor).controller.add_func dying_pvc ≡ ret tt)
          × ((old : Pvc)
              → (pvc_deletion_controller libraries monitor).controller.update_func old dying_pvc
                ≡ ret tt))
unfolding pvc_deletion_controller options_modifier
marked-Watched_example =
    marked-Watched libraries 3 monitor dying_pvc "data" (λ k labels. Dict.has labels k)
      (λ labels. refl) refl refl backing (pos 8192) unlabelled_pvc dying_pvc-IsMarked
      (record { label_selector = ""; field_selector = "" })
