-- ===== src/Node/Stage/Order.antt =====
-- The order of the calls that stage a volume on a node.
use subprovisioner.Base.{ℕ, String, ◌≡◌, refl, [], inr}
use subprovisioner.Base.Dict
use subprovisioner.Kube.Calls.{
  Call, History, get_pvc, update_pvc, create_replica_set as create_call, stat, context_err, sleep,
  back_off,
}
use subprovisioner.Kube.Contract.{
  Meets, Success, Saw, Meets-if, Meets-then, returned, failed, polling, Meets-weaken,
}
use subprovisioner.Kube.Libraries.{Libraries, IsLawful}
use subprovisioner.Common.Pvc.Staging.{StageOrder, StageDone, stage_pvc_on_node-then}
use subprovisioner.Common.ReplicaSet.{replica_set_of}
use subprovisioner.Common.ReplicaSet.Polling.{ReplicaSetMade, Meets-create_replica_set}
use subprovisioner.Common.Util.Device.{DeviceSeen, IsLook, Meets-wait_until_file_is_block_device}
use subprovisioner.Node.Stage.{NodeStageVolumeRequest, staging_replica_set, node_stage_volume}

module _ (image node : String) (lib : Libraries) (law : IsLawful lib) (rounds : ℕ)
    (req : NodeStageVolumeRequest) where
  abbrev namespace_of : String
  namespace_of = Dict.get req.volume_context "pvcNamespace"

  abbrev name_of : String
  name_of = Dict.get req.volume_context "pvcName"

  abbrev pub Entered : History → Type 0
  Entered = Saw (StageDone namespace_of name_of node lib law)

  -- Which calls staging may make, and when.
  abbrev pub StagingOrder : History → Call → Type 0
  StagingOrder h (create_call namespace made) =
      Entered h × (made ≡ replica_set_of (staging_replica_set lib rounds image node req))
  StagingOrder h (stat path) = Unit
  StagingOrder h context_err = Unit
  StagingOrder h (sleep _) = Unit
  StagingOrder h c = StageOrder namespace_of name_of node lib law h c

  -- What a successful staging has seen.
  abbrev pub Staged : History → Unit {0} → Type 0
  Staged h _ =
      Entered h
      × Saw (ReplicaSetMade (staging_replica_set lib rounds image node req)) h
      × Saw (DeviceSeen req.staging_target_path) h

  stage_within :
      (h : History) (c : Call)
      → Unit {0}
      → StageOrder namespace_of name_of node lib law h c
      → StagingOrder h c
  stage_within h (get_pvc n m) _ allowed = allowed
  stage_within h (update_pvc n written) _ allowed = allowed
  stage_within h back_off _ allowed = allowed
  stage_within h _ _ allowed = elim allowed [ ]

  looks_free : (h : History) (c : Call) → IsLook c → StagingOrder h c
  looks_free h (stat path) look = tt
  looks_free h context_err look = tt
  looks_free h (sleep n) look = tt
  looks_free h _ look = elim look [ ]

  StagedSoFar : History → Type 0
  StagedSoFar h = Entered h × Saw (ReplicaSetMade (staging_replica_set lib rounds image node req)) h

  -- Whatever the answers are: the staging replica set is created only after the claim was entered as
  -- staged on this node in a write that the server accepted, and it is the one of the request; no
  -- other object is written; and if staging succeeds, then that write was accepted, the replica set
  -- was created or existed, and the staging path was seen to be a block device.
  pub node_stage_volume_order :
      Meets StagingOrder (Success Staged) [] (node_stage_volume lib rounds image node req)
  unfolding node_stage_volume StagedSoFar
  node_stage_volume_order =
      Meets-if StagingOrder (Success Staged) [] req.volume_capability.block _ _
        (λ _.
          stage_pvc_on_node-then namespace_of name_of node lib law StagingOrder (λ _. Unit {0})
            (λ _ _ _. tt) Staged stage_within _ [] tt
            λ g _ entered.
              Meets-then StagingOrder (λ h _. StagedSoFar h) Staged g _ _
                (Meets-create_replica_set StagingOrder Entered (λ h e. inr)
                  (staging_replica_set lib rounds image node req) g entered (entered, refl))
                λ g₁ _ made.
                  Meets-weaken StagingOrder _ _ _ _
                    (Meets-wait_until_file_is_block_device StagingOrder StagedSoFar
                      (λ h e so_far. (inr so_far.0, inr so_far.1)) looks_free
                      req.staging_target_path rounds g₁ made)
                    λ h. elim [
                      | returned _ ↦ λ done. (done.0.0, done.0.1, done.1)
                      | failed e ↦ λ done. tt
                      | polling ↦ λ done. tt
                    ])
        λ _. unfold Meets in tt
