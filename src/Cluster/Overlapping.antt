-- ===== src/Cluster/Overlapping.antt =====
-- The monitor's deletion and a worker that has the volume.
use mathlib.Core.Path.{subst, ap}
use subprovisioner.Base.{ℕ, suc, String, ◌≡◌, ◌≢◌, refl, sym, ◌∙◌, [], ◌∷◌}
use subprovisioner.Kube.Errors.{Result, ok, err, api, not_found}
use subprovisioner.Kube.Calls.{Reply, event, get_pvc, delete_job, create_job as create_job_call}
use subprovisioner.Kube.Prog.{Prog, call}
use subprovisioner.Kube.Libraries.{Libraries, IsLawful}
use subprovisioner.Common.Config.{generate_creation_job_name}
use subprovisioner.Common.Job.{job_of}
use subprovisioner.Controller.Snapshot.{backing_of}
use subprovisioner.Controller.Monitor.{deletion_job, process_pvc, process_answer}
use subprovisioner.Controller.Monitor.Chosen.{IsChosen, process-FirstCalls}
use subprovisioner.Cluster.{Actor, System, replace, Reach, here, next, act, Step}
use subprovisioner.Cluster.Roles.{Working}
use subprovisioner.Cluster.Workers.{Worker, deleter, role_of, work}
use subprovisioner.Cluster.Exclusive.{IsBusy}
use subprovisioner.Cluster.Joining.{replace_here, replace_other}

module _ (lib : Libraries) (law : IsLawful lib) (rounds : ℕ) (namespace name : String)
    (worker : ℕ → Worker namespace name) where
  -- A state in which worker `i` has the volume and worker `j` is about to create the deletion job.
  abbrev pub Overlapped : String → System → ℕ → ℕ → Type 0
  Overlapped image s i j =
      (t : System) × Reach s t
      × (t.server ≡ s.server)
      × IsBusy lib law (suc rounds) namespace name worker t i
      × ((make : Result (Unit {0}) → Prog (Unit {0})) × ((t.actors j).program
            ≡ call
                (create_job_call (backing_of s.server.claim).pvc_namespace
                  (job_of (deletion_job image s.server.claim)))
                make))

  -- If a worker has the volume, and the claim lists no node and has the finalizer, then there is
  -- a run of a read and a deletion of the creation job, which is gone, after which the worker has the
  -- volume still and the next call of the monitor, which had made no call, creates the job
  -- that deletes the image. Neither the claim's state nor its deletion timestamp is asked for.
  pub deletion_overlaps :
      (s : System) (i j : ℕ) (image queue_key : String)
      → i ≢ j
      → s.actors j ≡ record {
        history = [];
        program = work lib (suc rounds) namespace name (deleter image queue_key);
      }
      → IsChosen s.server.claim
      → IsBusy lib law (suc rounds) namespace name worker s i
      → Overlapped image s i j
  deletion_overlaps s i j image queue_key differs begun chosen busy =
      let pvc = s.server.claim in
      let calls = process-FirstCalls lib rounds image queue_key pvc chosen in
      let read : Reply (get_pvc namespace name) = ok pvc in
      let reader : Actor = record {
        history = event (get_pvc namespace name) read ∷ (s.actors j).history;
        program = process_pvc lib (suc rounds) image queue_key pvc;
      } in
      let gone = delete_job (backing_of pvc).pvc_namespace (generate_creation_job_name pvc.uid) in
      let reads : Step s (record { server = s.server; actors = replace s.actors j reader }) =
        act j (get_pvc namespace name) (process_answer lib (suc rounds) image queue_key) read
          s.server (ap (λ (a : Actor). a.program) begun) (refl, refl) in
      let now = replace s.actors j reader in
      let maker : Actor = record {
        history = event gone (err (api not_found)) ∷ (now j).history;
        program = calls.look (err (api not_found));
      } in
      let removes : Step (record { server = s.server; actors = now })
          (record { server = s.server; actors = replace now j maker }) =
        act j gone calls.look (err (api not_found)) s.server
          (ap (λ (a : Actor). a.program) (replace_here s.actors j reader) ∙ calls.first) refl in
      let other = λ (e : j ≡ i). differs (sym e) in
      (
        record { server = s.server; actors = replace now j maker },
        next (next here reads) removes,
        refl,
        subst (λ (a : Actor). Working lib law namespace name (role_of (worker i)) a.history)
            (sym (replace_other now j maker i other ∙ replace_other s.actors j reader i other))
            busy,
        (calls.make, ap (λ (a : Actor). a.program) (replace_here now j maker) ∙ calls.second),
      )
