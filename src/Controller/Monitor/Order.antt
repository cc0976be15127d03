-- ===== src/Controller/Monitor/Order.antt =====
-- The order in which `deleteVolume` takes a volume apart.
use subprovisioner.Base.{ℕ, String, ◌≡◌, refl, ◌⊎◌, [], ◌∷◌, inl, inr}
use subprovisioner.Kube.Objects.{Pvc}
use subprovisioner.Kube.Errors.{ok, err}
use subprovisioner.Kube.Calls.{
  Call, Event, event, History, get_pvc, update_pvc, create_job as create_job_call, get_job,
  delete_job, sleep, back_off,
}
use subprovisioner.Kube.Contract.{Lasting, Meets, Success, Saw}
use subprovisioner.Kube.Libraries.{Libraries, IsLawful}
use subprovisioner.Kube.Retries.{Renewed, Meets-retry}
use subprovisioner.Common.Config.{generate_creation_job_name, generate_deletion_job_name}
use subprovisioner.Common.Job.{job_of}
use subprovisioner.Common.Job.Polling.{
  JobGone, JobSucceeded, create_job-then, wait_for_job_to_succeed-then,
  delete_job_synchronously-then,
}
use subprovisioner.Controller.Snapshot.{backing_of}
use subprovisioner.Controller.Monitor.{
  remove_finalizer, deletion_job, release_attempt, delete_volume,
}

-- The latest event was a read of the claim, and the update is what was read without the finalizer.
abbrev pub IsRelease : Pvc → History → String → Pvc → Type 0
IsRelease pvc (event (get_pvc n m) (ok current) ∷ _) namespace written =
    (n ≡ pvc.namespace)
    × (m ≡ pvc.name)
    × (namespace ≡ pvc.namespace)
    × (written ≡ record current { finalizers = remove_finalizer current.finalizers })
IsRelease _ _ _ _ = ⊥

module _ (image : String) (pvc : Pvc) where
  abbrev pub CreationGone : History → Type 0
  CreationGone = Saw (JobGone (backing_of pvc).pvc_namespace (generate_creation_job_name pvc.uid))

  abbrev pub ImageDeleted : History → Type 0
  ImageDeleted h =
      CreationGone h
      × Saw (JobSucceeded (backing_of pvc).pvc_namespace (generate_deletion_job_name pvc.uid)) h

  abbrev pub DeletionGone : History → Type 0
  DeletionGone h =
      ImageDeleted h
      × Saw (JobGone (backing_of pvc).pvc_namespace (generate_deletion_job_name pvc.uid)) h

  -- Which calls the deletion of a volume may make, and when.
  abbrev pub DeletionOrder : History → Call → Type 0
  DeletionOrder h (create_job_call namespace job) =
      CreationGone h × (job ≡ job_of (deletion_job image pvc))
  DeletionOrder h (update_pvc namespace written) =
      DeletionGone h × IsRelease pvc h namespace written
  DeletionOrder h (get_pvc _ _) = Unit
  DeletionOrder h (get_job _ _) = Unit
  DeletionOrder h (delete_job namespace name) =
      (namespace ≡ (backing_of pvc).pvc_namespace)
      × ((name ≡ generate_creation_job_name pvc.uid)
          ⊎ ((name ≡ generate_deletion_job_name pvc.uid) × ImageDeleted h))
  DeletionOrder h (sleep _) = Unit
  DeletionOrder h back_off = Unit
  DeletionOrder h _ = ⊥

-- The claim was updated, and the server accepted it.
abbrev pub Updated : Event → Type 0
Updated (event (update_pvc _ _) (ok _)) = Unit
Updated _ = ⊥

-- Facts of the past stay.
CreationGone-Lasting : (image : String) (pvc : Pvc) → Lasting (CreationGone image pvc)
CreationGone-Lasting image pvc h e gone = inr gone

ImageDeleted-Lasting : (image : String) (pvc : Pvc) → Lasting (ImageDeleted image pvc)
ImageDeleted-Lasting image pvc h e (gone, deleted) = (inr gone, inr deleted)

DeletionGone-Lasting : (image : String) (pvc : Pvc) → Lasting (DeletionGone image pvc)
DeletionGone-Lasting image pvc h e (deleted, gone) =
    (ImageDeleted-Lasting image pvc h e deleted, inr gone)

-- A deletion that returns has released the claim.
abbrev pub Released : History → Unit {0} → Type 0
Released h _ = Saw Updated h

module _ (lib : Libraries) (law : IsLawful lib) (rounds : ℕ) (image : String) (pvc : Pvc) where
  Meets-release_attempt :
      (h : History)
      → DeletionGone image pvc h
      → Meets
          (DeletionOrder image pvc)
          (Renewed (DeletionOrder image pvc) (DeletionGone image pvc) (Success Released))
          h
          (release_attempt pvc)
  unfolding Meets release_attempt
  Meets-release_attempt h ((gone, deleted), removed) = (
    tt,
    elim [
      | ok current ↦ (
        (((inr gone, inr deleted), inr removed), (refl, refl, refl, refl)),
        elim [
          | ok _ ↦ (inl tt, ((inr (inr gone), inr (inr deleted)), inr (inr removed)))
          | err e ↦ (tt, ((inr (inr gone), inr (inr deleted)), inr (inr removed)))
        ],
      )
      | err e ↦ (tt, ((inr gone, inr deleted), inr removed))
    ],
  )

  -- Whatever the answers are: the deletion job is created only after the server said that the
  -- creation job is gone; the claim is updated only after that, after the deletion job was read with a
  -- success and after the server said that the deletion job is gone; each update writes the claim as
  -- it was read last, without the finalizer; the only jobs deleted are the creation job and, after
  -- its success was read, the deletion job; no other call but reads and pauses is made; and if the
  -- deletion returns, the server has accepted such an update.
  pub delete_volume_order :
      Meets (DeletionOrder image pvc) (Success Released) [] (delete_volume lib rounds image pvc)
  unfolding delete_volume
  delete_volume_order =
      let order = DeletionOrder image pvc in
      let namespace = (backing_of pvc).pvc_namespace in
      let creation = generate_creation_job_name pvc.uid in
      let deletion = generate_deletion_job_name pvc.uid in
      delete_job_synchronously-then order Released (λ _. Unit {0}) (λ _ _ _. tt) rounds creation
        namespace (λ _. tt) (λ _. tt) _ [] tt (refl, inl refl)
        λ g _ gone.
          create_job-then order Released (CreationGone image pvc) (CreationGone-Lasting image pvc)
            (deletion_job image pvc) _ g gone (gone, refl)
            λ g₁ gone₁ _.
              wait_for_job_to_succeed-then order Released (CreationGone image pvc)
                (CreationGone-Lasting image pvc) rounds deletion namespace (λ _. tt) (λ _. tt) _ g₁
                gone₁
                λ g₂ gone₂ deleted.
                  delete_job_synchronously-then order Released (ImageDeleted image pvc)
                    (ImageDeleted-Lasting image pvc) rounds deletion namespace (λ _. tt) (λ _. tt) _
                    g₂ (gone₂, deleted) (refl, inr (refl, (gone₂, deleted)))
                    λ g₃ deleted₃ removed.
                      Meets-retry order (DeletionGone image pvc) (Success Released) (λ _ _. tt)
                        (λ h. DeletionGone-Lasting image pvc h (event back_off tt)) lib law
                        (release_attempt pvc) Meets-release_attempt g₃ (deleted₃, removed)
