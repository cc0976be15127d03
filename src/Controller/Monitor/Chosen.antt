-- ===== src/Controller/Monitor/Chosen.antt =====
-- What the monitor does with a claim that it finds without nodes and with its finalizer, whatever else
-- the claim says.
use mathlib.Core.Path.{subst}
use subprovisioner.Base.{ℕ, suc, String, ◌≡◌, refl, sym, ap, ◌==◌, true, [], ◌∷◌, inl, inr}
use subprovisioner.Base.Dict
use subprovisioner.Base.Int.{ℤ, pos}
use subprovisioner.Kube.Objects.{Pvc}
use subprovisioner.Kube.Errors.{Result, ok, err, api, not_found}
use subprovisioner.Kube.Calls.{
  Call, Reply, Event, event, History, get_pvc, delete_job, get_job, create_job as create_job_call,
}
use subprovisioner.Kube.Contract.{Saw}
use subprovisioner.Kube.Prog.{Prog, call, catch, ◌>>=◌}
use subprovisioner.Kube.Run.{Environment, run, run-Saw}
use subprovisioner.Kube.Libraries.{Libraries}
use subprovisioner.Common.Config.{key, generate_creation_job_name, generate_deletion_job_name}
use subprovisioner.Common.Job.{
  job_of, create_job, wait_for_job_to_succeed, delete_job_synchronously,
}
use subprovisioner.Common.Job.Polling.{JobMade, JobSucceeded}
use subprovisioner.Controller.Snapshot.{backing_of}
use subprovisioner.Controller.Monitor.{
  has_finalizer, deletion_job, delete_volume, conclude, process_pvc, process_answer, process_named,
  process_key,
}

-- The first three calls, when the creation job is gone and the deletion job can be made.
pub record FirstCalls (image : String) (pvc : Pvc) (m : Prog (Unit {0})) : Type 0 where
  pub look : Result (Unit {0}) → Prog (Unit {0})
  pub first :
      m ≡ call (delete_job (backing_of pvc).pvc_namespace (generate_creation_job_name pvc.uid)) look
  pub make : Result (Unit {0}) → Prog (Unit {0})
  pub second :
      look (err (api not_found))
      ≡ call (create_job_call (backing_of pvc).pvc_namespace (job_of (deletion_job image pvc))) make
  pub wait : Result ℤ → Prog (Unit {0})
  pub third :
      make (ok tt)
      ≡ call (get_job (backing_of pvc).pvc_namespace (generate_deletion_job_name pvc.uid)) wait

abbrev pub IsChosen : Pvc → Type 0
IsChosen pvc =
    ((Dict.get pvc.annotations (key "/staged-on-nodes") == "") ≡ true)
    × (has_finalizer pvc.finalizers ≡ true)

module _ (lib : Libraries) (rounds : ℕ) (image queue_key : String) (pvc : Pvc) where
  abbrev chosen_program : Prog (Unit {0})
  chosen_program =
      catch (delete_volume lib rounds image pvc) >>= conclude lib rounds image queue_key

  process_pvc-chosen : IsChosen pvc → process_pvc lib rounds image queue_key pvc ≡ chosen_program
  unfolding process_pvc
  process_pvc-chosen (unstaged, finalizer) = rw (unstaged, finalizer) refl

module _ (lib : Libraries) (rounds : ℕ) (image queue_key : String) (pvc : Pvc) where
  chosen-FirstCalls : FirstCalls image pvc (chosen_program lib (suc rounds) image queue_key pvc)
  unfolding delete_volume delete_job_synchronously create_job wait_for_job_to_succeed deletion_job
  chosen-FirstCalls = record {
    look = _;
    first = refl;
    make = _;
    second = refl;
    wait = _;
    third = refl;
  }

  pub process-FirstCalls :
      IsChosen pvc → FirstCalls image pvc (process_pvc lib (suc rounds) image queue_key pvc)
  process-FirstCalls chosen =
      rw (process_pvc-chosen lib (suc rounds) image queue_key pvc chosen) chosen-FirstCalls

  -- The calls with their answers when all goes well.
  abbrev deleted_after : History → History
  deleted_after h =
      event (get_job (backing_of pvc).pvc_namespace (generate_deletion_job_name pvc.uid))
        (ok (pos 1))
      ∷ event (create_job_call (backing_of pvc).pvc_namespace (job_of (deletion_job image pvc)))
          (ok tt)
      ∷ event (delete_job (backing_of pvc).pvc_namespace (generate_creation_job_name pvc.uid))
          (err (api not_found))
      ∷ h

-- A server for which the deletion of the image goes well: the creation job is gone, and the deletion
-- job is made and succeeds.
pub record LetsDelete (env : Environment) (image : String) (pvc : Pvc) : Type 0 where
  pub gone :
      (h : History)
      → env h (delete_job (backing_of pvc).pvc_namespace (generate_creation_job_name pvc.uid))
        ≡ err (api not_found)
  pub makes :
      (h : History)
      → env h (create_job_call (backing_of pvc).pvc_namespace (job_of (deletion_job image pvc)))
        ≡ ok tt
  pub succeeds :
      (h : History)
      → env h (get_job (backing_of pvc).pvc_namespace (generate_deletion_job_name pvc.uid))
        ≡ ok (pos 1)

module _ (P : Event → Type 0) (env : Environment) where
  -- Something is seen in a run if it is seen after the run's first call.
  Saw-step :
      (c : Call) (r : Reply c) (k : Reply c → Prog (Unit {0})) (m : Prog (Unit {0})) (h : History)
      → m ≡ call c k
      → env h c ≡ r
      → Saw P (run env (event c r ∷ h) (k r)).1
      → Saw P (run env h m).1
  unfolding run
  Saw-step c r k m h begins answers seen =
      subst (λ m. Saw P (run env h m).1) (sym begins)
        (subst (λ r. Saw P (run env (event c r ∷ h) (k r)).1) (sym answers) seen)

module _ (lib : Libraries) (rounds : ℕ) (image queue_key namespace name : String) (pvc : Pvc)
    (env : Environment) where
  Saw-chosen :
      (P : Event → Type 0) (h : History)
      → LetsDelete env image pvc
      → Saw P (deleted_after lib rounds image queue_key pvc h)
      → Saw P (run env h (chosen_program lib (suc rounds) image queue_key pvc)).1
  Saw-chosen P h lets seen =
      let calls = chosen-FirstCalls lib rounds image queue_key pvc in
      Saw-step P env _ _ calls.look _ h calls.first (lets.gone h) (
        Saw-step P env _ _ calls.make _ _ calls.second (lets.makes _) (
          Saw-step P env _ _ calls.wait _ _ calls.third (lets.succeeds _)
            (run-Saw P env _ (calls.wait (ok (pos 1))) seen)))

  Saw-process :
      (P : Event → Type 0)
      → lib.split_meta_namespace_key queue_key ≡ ok (namespace, name)
      → env [] (get_pvc namespace name) ≡ ok pvc
      → IsChosen pvc
      → LetsDelete env image pvc
      → Saw P (
          deleted_after lib rounds image queue_key pvc
            (event (get_pvc namespace name) (ok pvc) ∷ []))
      → Saw P (run env [] (process_key lib (suc rounds) image queue_key)).1
  unfolding process_key
  Saw-process P named read chosen lets seen =
      let program = process_answer lib (suc rounds) image queue_key in
      Saw-step P env (get_pvc namespace name) (ok pvc) program _ []
        (ap (process_named lib (suc rounds) image queue_key) named) read
        (rw (process_pvc-chosen lib (suc rounds) image queue_key pvc chosen)
          (Saw-chosen P _ lets seen))

  -- For every claim that the server answers a read with, which lists no node and has the finalizer, if
  -- the creation job is gone and the deletion job can be made and succeeds: a run of the monitor for a
  -- key with the claim's namespace and name makes the job that deletes the claim's image and sees it
  -- succeed. Whether the claim is being deleted, and in which state it is, plays no part.
  pub live_volume_deleted :
      lib.split_meta_namespace_key queue_key ≡ ok (namespace, name)
      → env [] (get_pvc namespace name) ≡ ok pvc
      → IsChosen pvc
      → LetsDelete env image pvc
      → Saw
          (JobMade (deletion_job image pvc))
          (run env [] (process_key lib (suc rounds) image queue_key)).1
        × Saw
            (JobSucceeded (backing_of pvc).pvc_namespace (generate_deletion_job_name pvc.uid))
            (run env [] (process_key lib (suc rounds) image queue_key)).1
  live_volume_deleted named read chosen lets = (
    Saw-process (JobMade (deletion_job image pvc)) named read chosen lets
        (unfold deletion_job in inr (inl (refl, refl))),
    Saw-process _ named read chosen lets (inl (refl, refl, refl)),
  )
