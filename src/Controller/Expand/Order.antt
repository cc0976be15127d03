-- ===== src/Controller/Expand/Order.antt =====
-- The order of an expansion's calls, and the capacity that it reports.
use subprovisioner.Base.{ℕ, String, ◌≡◌, refl, false, List, [], ◌∷◌, ◌<>◌, inl, inr}
use subprovisioner.Base.Int.{ℤ}
use subprovisioner.Kube.Objects.{Pvc}
use subprovisioner.Kube.Errors.{ok, err}
use subprovisioner.Kube.Calls.{
  Call, Event, event, History, get_pvc, update_pvc, patch_pvc, create_job as create_job_call,
  get_job, delete_job, sleep, back_off,
}
use subprovisioner.Kube.Contract.{Lasting, Meets, Success, Saw}
use subprovisioner.Kube.Prog.{ret, ◌>>=◌}
use subprovisioner.Kube.Libraries.{Libraries, IsLawful}
use subprovisioner.Common.Config.{generate_expansion_job_name}
use subprovisioner.Common.Pvc.{strategic_merge_patch_pvc}
use subprovisioner.Common.Pvc.Claim.{Claimed, ClaimOrder, set_pvc_state_to-then}
use subprovisioner.Common.Job.Polling.{
  JobGone, JobSucceeded, create_job-then, wait_for_job_to_succeed-then,
  delete_job_synchronously-then,
}
use subprovisioner.Controller.Requests.{ControllerExpandVolumeResponse}
use subprovisioner.Controller.Snapshot.{backing_of}
use subprovisioner.Strconv.{format_int}
use subprovisioner.Controller.Contents.{
  annotated_place, RecordsCapacity, Runs, capacity-RecordsCapacity, expansion-Runs,
}
use subprovisioner.Controller.Expand.{
  expansion_script, expansion_job, expand_image, record_capacity, expanded_to,
}

module _ (image : String) (pvc : Pvc) (capacity : ℤ) where
  abbrev pub Taken : History → Type 0
  Taken = Saw (Claimed pvc.namespace pvc.name "expanding")

  abbrev pub Resized : History → Type 0
  Resized h =
      Taken h
      × Saw (JobSucceeded (backing_of pvc).pvc_namespace (generate_expansion_job_name pvc.uid)) h

  abbrev pub Cleared : History → Type 0
  Cleared h =
      Resized h
      × Saw (JobGone (backing_of pvc).pvc_namespace (generate_expansion_job_name pvc.uid)) h

  -- The script of an expansion, with the volume's image and the new capacity.
  abbrev pub resize_command : List String
  resize_command =
      "bash"
      ∷ "-c"
      ∷ expansion_script
      ∷ "bash"
      ∷ ("/var/backing/pvc-" <> (pvc.uid <> ".qcow2"))
      ∷ format_int capacity
      ∷ []

  -- Which calls an expansion may make, and when.
  abbrev pub ExpansionOrder : History → Call → Type 0
  ExpansionOrder h (create_job_call namespace job) =
      Taken h
      × Runs job ("subprovisioner-expand-" <> pvc.uid) image (annotated_place pvc) resize_command
  ExpansionOrder h (get_job _ _) = Unit
  ExpansionOrder h (delete_job namespace name) =
      (namespace ≡ (backing_of pvc).pvc_namespace)
      × (name ≡ generate_expansion_job_name pvc.uid)
      × Resized h
  ExpansionOrder h (sleep _) = Unit
  ExpansionOrder h (patch_pvc namespace name patch) =
      Cleared h × (namespace ≡ pvc.namespace) × (name ≡ pvc.name) × RecordsCapacity patch capacity
  ExpansionOrder h c = ClaimOrder pvc.namespace pvc.name "expanding" h c

  -- The last patch was accepted.
  abbrev pub Recorded : Event → Type 0
  Recorded (event (patch_pvc namespace name patch) (ok _)) =
      (namespace ≡ pvc.namespace) × (name ≡ pvc.name) × RecordsCapacity patch capacity
  Recorded _ = ⊥

  abbrev pub Expanded : History → ControllerExpandVolumeResponse → Type 0
  Expanded h response =
      Saw Recorded h
      × (response.capacity_bytes ≡ capacity)
      × (response.node_expansion_required ≡ false)

  claim_within :
      (h : History) (c : Call)
      → ClaimOrder pvc.namespace pvc.name "expanding" h c
      → ExpansionOrder h c
  claim_within h (get_pvc n m) allowed = allowed
  claim_within h (update_pvc n written) allowed = allowed
  claim_within h back_off allowed = allowed
  claim_within h _ allowed = elim allowed [ ]

  Taken-Lasting : Lasting Taken
  Taken-Lasting h e taken = inr taken

  Resized-Lasting : Lasting Resized
  Resized-Lasting h e (taken, resized) = (inr taken, inr resized)

  Meets-record_capacity :
      (h : History)
      → Cleared h
      → Meets ExpansionOrder
          (Success Expanded)
          h
          (record_capacity pvc capacity >>= λ _. ret (expanded_to capacity))
  unfolding Meets record_capacity strategic_merge_patch_pvc
  Meets-record_capacity h cleared =
      let records = capacity-RecordsCapacity capacity in
      (
        (cleared, refl, refl, records),
        elim [ ok _ ↦ (inl (refl, refl, records), refl, refl) | err e ↦ tt ],
      )

  -- Whatever the answers are, and whatever happened before: the expansion job, which runs the resizing script on the volume's image
  -- with the new capacity, is created only after the volume was taken for expanding; the claim is patched only after that,
  -- after the job was read with a success and after the server said that the job is gone, with the
  -- new capacity and the idle state together; no other job is deleted, and this one only after its
  -- success was read; the other updates are those of `SetPvcStateTo`; and if
  -- the expansion returns, that patch was accepted and the answer reports the new capacity.
  pub expand_image_order :
      (lib : Libraries)
      → IsLawful lib
      → (rounds : ℕ) (h : History)
      → Meets ExpansionOrder (Success Expanded) h (expand_image lib rounds image pvc capacity)
  unfolding expand_image
  expand_image_order lib law rounds h =
      let namespace = (backing_of pvc).pvc_namespace in
      let name = generate_expansion_job_name pvc.uid in
      set_pvc_state_to-then pvc.namespace pvc.name "expanding" ExpansionOrder claim_within
        (λ _. Unit {0}) (λ _ _ _. tt) Expanded lib law _ h tt
        λ g _ taken.
          create_job-then ExpansionOrder Expanded Taken Taken-Lasting
            (expansion_job image pvc capacity) _ g taken (taken, expansion-Runs image pvc capacity)
            λ g₁ taken₁ _.
              wait_for_job_to_succeed-then ExpansionOrder Expanded Taken Taken-Lasting rounds name
                namespace (λ _. tt) (λ _. tt) _ g₁ taken₁
                λ g₂ taken₂ resized.
                  delete_job_synchronously-then ExpansionOrder Expanded Resized Resized-Lasting
                    rounds name namespace (λ _. tt) (λ _. tt) _ g₂ (taken₂, resized)
                    (refl, refl, (taken₂, resized))
                    λ g₃ resized₃ gone. Meets-record_capacity g₃ (resized₃, gone)
