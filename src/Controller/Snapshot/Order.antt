-- ===== src/Controller/Snapshot/Order.antt =====
-- The order of a snapshot's calls, and the size that it reports.
use subprovisioner.Base.{ℕ, String, ◌≡◌, refl, some, List, [], ◌∷◌, ◌<>◌, inl, inr}
use subprovisioner.Base.Int.{ℤ}
use subprovisioner.Base.Dict
use subprovisioner.Strconv.{parse_int}
use subprovisioner.Kube.Objects.{Pvc, VolumeSnapshot}
use subprovisioner.Kube.Errors.{ok, err}
use subprovisioner.Kube.Calls.{
  Call, Event, event, History, get_pvc, update_pvc, patch_pvc, patch_volume_snapshot,
  create_job as create_job_call, get_job, delete_job, sleep, back_off,
}
use subprovisioner.Kube.Contract.{Lasting, Meets, Success, Saw, Meets-then, Meets-or_fail}
use subprovisioner.Kube.Prog.{ret, ◌>>=◌}
use subprovisioner.Kube.Libraries.{Libraries, IsLawful}
use subprovisioner.Common.Config.{key, generate_snapshotting_job_name}
use subprovisioner.Common.Pvc.{set_pvc_state_to_idle}
use subprovisioner.Common.Pvc.Claim.{Claimed, ClaimOrder, set_pvc_state_to-then}
use subprovisioner.Common.Snapshot.{merge_patch_volume_snapshot}
use subprovisioner.Common.Job.Polling.{
  JobGone, JobSucceeded, create_job-then, wait_for_job_to_succeed-then,
  delete_job_synchronously-then,
}
use subprovisioner.Controller.Contents.{
  annotated_place, MarksSnapshot, Runs, back_to_idle, snapshot-MarksSnapshot, snapshotting-Runs,
}
use subprovisioner.Controller.Snapshot.{
  snapshot_script, backing_of, mark_snapshot, snapshotting_job, snapshot_pvc,
}

module _ (image name namespace : String) (snapshot : VolumeSnapshot) (pvc : Pvc) where
  abbrev pub Taken : History → Type 0
  Taken = Saw (Claimed pvc.namespace pvc.name "snapshotting")

  -- The size is the source's capacity, by its annotation.
  abbrev pub IsSize : ℤ → Type 0
  IsSize size = parse_int (Dict.get pvc.annotations (key "/capacity")) ≡ some size

  abbrev pub Marked : Event → Type 0
  Marked (event (patch_volume_snapshot n m patch) (ok _)) =
      (n ≡ namespace)
      × (m ≡ name)
      × ((size : ℤ) × IsSize size × MarksSnapshot patch (annotated_place pvc) snapshot.uid size)
  Marked _ = ⊥

  -- The script of a snapshot, with the image of the volume and that of the snapshot.
  abbrev pub snapshot_command : List String
  snapshot_command =
      "bash"
      ∷ "-c"
      ∷ snapshot_script
      ∷ "bash"
      ∷ ("pvc-" <> (pvc.uid <> ".qcow2"))
      ∷ ("snapshot-" <> (snapshot.uid <> ".qcow2"))
      ∷ []

  abbrev pub TakenAndMarked : History → Type 0
  TakenAndMarked h = Taken h × Saw Marked h

  abbrev pub Copied : History → Type 0
  Copied h =
      TakenAndMarked h
      × Saw
          (JobSucceeded (backing_of pvc).pvc_namespace
            (generate_snapshotting_job_name snapshot.uid))
          h

  abbrev pub Cleared : History → Type 0
  Cleared h =
      Copied h
      × Saw (JobGone (backing_of pvc).pvc_namespace (generate_snapshotting_job_name snapshot.uid)) h

  -- Which calls a snapshot may make, and when.
  abbrev pub SnapshotOrder : History → Call → Type 0
  SnapshotOrder h (patch_volume_snapshot n m patch) =
      Taken h
      × (n ≡ namespace)
      × (m ≡ name)
      × ((size : ℤ) × IsSize size × MarksSnapshot patch (annotated_place pvc) snapshot.uid size)
  SnapshotOrder h (create_job_call n job) =
      TakenAndMarked h
      × Runs job ("subprovisioner-snapshot-" <> snapshot.uid) image (annotated_place pvc)
          snapshot_command
  SnapshotOrder h (get_job _ _) = Unit
  SnapshotOrder h (delete_job n m) =
      (n ≡ (backing_of pvc).pvc_namespace)
      × (m ≡ generate_snapshotting_job_name snapshot.uid)
      × Copied h
  SnapshotOrder h (sleep _) = Unit
  SnapshotOrder h (patch_pvc n m patch) =
      Cleared h × (n ≡ pvc.namespace) × (m ≡ pvc.name) × (patch ≡ back_to_idle)
  SnapshotOrder h c = ClaimOrder pvc.namespace pvc.name "snapshotting" h c

  abbrev pub Freed : Event → Type 0
  Freed (event (patch_pvc n m patch) (ok _)) =
      (n ≡ pvc.namespace) × (m ≡ pvc.name) × (patch ≡ back_to_idle)
  Freed _ = ⊥

  abbrev pub Snapshotted : History → ℤ → Type 0
  Snapshotted h size = Saw Freed h × IsSize size

  claim_within :
      (h : History) (c : Call)
      → ClaimOrder pvc.namespace pvc.name "snapshotting" h c
      → SnapshotOrder h c
  claim_within h (get_pvc n m) allowed = allowed
  claim_within h (update_pvc n written) allowed = allowed
  claim_within h back_off allowed = allowed
  claim_within h _ allowed = elim allowed [ ]

  TakenAndMarked-Lasting : Lasting TakenAndMarked
  TakenAndMarked-Lasting h e (taken, marked) = (inr taken, inr marked)

  Copied-Lasting : Lasting Copied
  Copied-Lasting h e ((taken, marked), copied) = ((inr taken, inr marked), inr copied)

  Meets-set_pvc_state_to_idle :
      (size : ℤ)
      → IsSize size
      → (h : History) → Cleared h
      → Meets SnapshotOrder
          (Success Snapshotted)
          h
          (set_pvc_state_to_idle pvc.name pvc.namespace >>= λ _. ret size)
  unfolding Meets set_pvc_state_to_idle
  Meets-set_pvc_state_to_idle size is_size h cleared =
      ((cleared, refl, refl, refl), elim [ ok _ ↦ (inl (refl, refl, refl), is_size) | err e ↦ tt ])

  Meets-mark_snapshot :
      (size : ℤ)
      → IsSize size
      → (h : History) → Taken h
      → Meets SnapshotOrder
          (Success (λ g _. TakenAndMarked g))
          h
          (mark_snapshot name namespace snapshot (backing_of pvc) size)
  unfolding Meets mark_snapshot merge_patch_volume_snapshot
  Meets-mark_snapshot size is_size h taken = (
    (taken, refl, refl, (size, is_size, snapshot-MarksSnapshot snapshot pvc size)),
    elim [
      | ok _ ↦
          (inr taken, inl (refl, refl, (size, is_size, snapshot-MarksSnapshot snapshot pvc size)))
      | err e ↦ tt
    ],
  )

  -- Whatever the answers are: the snapshot object is patched, with the source's capacity as its size,
  -- only after the source was taken for snapshotting; the snapshotting job, which runs the script on
  -- the images of the source and of the snapshot where the source's annotations say that they lie, is
  -- created only after that patch was accepted; the source goes back to idle only after the job was read with a success and
  -- after the server said that the job is gone; no other job is deleted, and this one only after its
  -- success was read; the other updates are those of `SetPvcStateTo`; and if
  -- the program returns, the source was put back to idle and the result is the source's capacity.
  pub snapshot_pvc_order :
      (lib : Libraries)
      → IsLawful lib
      → (rounds : ℕ)
      → Meets SnapshotOrder
          (Success Snapshotted)
          []
          (snapshot_pvc lib rounds image name namespace snapshot pvc)
  unfolding snapshot_pvc
  snapshot_pvc_order lib law rounds =
      let backing = (backing_of pvc).pvc_namespace in
      let job_name = generate_snapshotting_job_name snapshot.uid in
      set_pvc_state_to-then pvc.namespace pvc.name "snapshotting" SnapshotOrder claim_within
        (λ _. Unit {0}) (λ _ _ _. tt) Snapshotted lib law _ [] tt
        λ g _ taken.
          Meets-then SnapshotOrder (λ g₁ size. Taken g₁ × IsSize size) Snapshotted g _ _
            (Meets-or_fail SnapshotOrder (λ g₁ size. Taken g₁ × IsSize size) g _ _
              (λ size is_size. (taken, is_size)))
            λ g₁ size at.
              Meets-then SnapshotOrder (λ g₂ _. TakenAndMarked g₂) Snapshotted g₁ _ _
                (Meets-mark_snapshot size at.1 g₁ at.0)
                λ g₂ _ marked.
                  create_job-then SnapshotOrder Snapshotted TakenAndMarked TakenAndMarked-Lasting
                    (snapshotting_job image pvc snapshot) _ g₂ marked
                    (marked, snapshotting-Runs image pvc snapshot)
                    λ g₃ marked₃ _.
                      wait_for_job_to_succeed-then SnapshotOrder Snapshotted TakenAndMarked
                        TakenAndMarked-Lasting rounds job_name backing (λ _. tt) (λ _. tt) _ g₃
                        marked₃
                        λ g₄ marked₄ copied.
                          delete_job_synchronously-then SnapshotOrder Snapshotted Copied
                            Copied-Lasting rounds job_name backing (λ _. tt) (λ _. tt) _ g₄
                            (marked₄, copied) (refl, refl, (marked₄, copied))
                            λ g₅ copied₅ gone.
                              Meets-set_pvc_state_to_idle size at.1 g₅ (copied₅, gone)
