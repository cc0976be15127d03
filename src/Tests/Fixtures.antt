-- ===== src/Tests/Fixtures.antt =====
-- The volume, the snapshot, the requests and the libraries of the tests.
use subprovisioner.Base.{true, false, none, some, [], ◌∷◌, refl}
use subprovisioner.Base.Int.{pos}
use subprovisioner.Kube.Objects.{Pvc, VolumeSnapshot}
use subprovisioner.Kube.Errors.{ok}
use subprovisioner.Kube.Calls
use subprovisioner.Kube.Calls.{Call, Reply}
use subprovisioner.Kube.Libraries.{Libraries, IsLawful, last, again, or_again}
use subprovisioner.Common.Config.{key}
use subprovisioner.Controller.Requests.{
  VolumeCapability, single_node_writer, CreateVolumeRequest, from_volume,
}
use subprovisioner.Controller.Create.{Backing}
use subprovisioner.Node.Stage.{NodeStageVolumeRequest, NodeUnstageVolumeRequest}

-- Two attempts, keys in the order they come, and names that stand for their own hashes.
abbrev pub libraries : Libraries
libraries = record {
  retry_on_conflict = λ attempt. or_again attempt attempt;
  map_order = λ keys. keys;
  sha256_hex = λ text. text;
  split_meta_namespace_key = λ text. ok ("default", text);
  meta_namespace_key = λ pvc. ok pvc.name;
}

pub libraries-IsLawful : IsLawful libraries
libraries-IsLawful = record { retries = λ attempt. again last; visits = λ keys item. refl }

abbrev pub idle_pvc : Pvc
idle_pvc = record {
  name = "data";
  namespace = "default";
  uid = "1234";
  resource_version = "7";
  deletion_timestamp = none;
  labels = (key "/uid", "1234") ∷ [];
  annotations =
      (key "/state", "idle")
      ∷ (key "/capacity", "8192")
      ∷ (key "/backing-pvc-name", "store")
      ∷ (key "/backing-pvc-namespace", "storage")
      ∷ (key "/backing-pvc-base-path", "volumes")
      ∷ [];
  finalizers = key "/cleanup" ∷ [];
}

abbrev pub staged_pvc : Pvc
staged_pvc = record idle_pvc {
  annotations = (key "/state", "staged") ∷ (key "/staged-on-nodes", "n1,n2") ∷ [];
}

abbrev pub snapshot : VolumeSnapshot
snapshot = record { name = "before"; namespace = "default"; uid = "5678"; annotations = [] }

abbrev pub backing : Backing
backing = record { pvc_name = "store"; pvc_namespace = "storage"; base_path = "volumes" }

abbrev pub block_capability : VolumeCapability
block_capability = record { block = true; access_mode = single_node_writer }

abbrev pub clone_request : CreateVolumeRequest
clone_request = record {
  parameters =
      ("csi.storage.k8s.io/pvc/name", "copy")
      ∷ ("csi.storage.k8s.io/pvc/namespace", "default")
      ∷ ("backingClaimName", "store")
      ∷ ("backingClaimNamespace", "storage")
      ∷ [];
  capacity_range = some (record { required_bytes = pos 8000; limit_bytes = pos 0 });
  volume_capabilities = block_capability ∷ [];
  volume_content_source = some (from_volume "1234");
}

abbrev pub stage_request : NodeStageVolumeRequest
stage_request = record {
  volume_id = "1234";
  volume_context = ("pvcName", "data") ∷ ("pvcNamespace", "default") ∷ [];
  staging_target_path = "/staging/1234";
  volume_capability = block_capability;
}

abbrev pub unstage_request : NodeUnstageVolumeRequest
unstage_request = record { volume_id = "1234"; staging_target_path = "/staging/1234" }

-- Every request is accepted and every search is empty.
abbrev pub quiet : (c : Call) → Reply c
quiet (Calls.get_pvc _ _) = ok idle_pvc
quiet (Calls.list_pvcs _) = ok []
quiet (Calls.patch_pvc _ _ _) = ok tt
quiet (Calls.update_pvc _ _) = ok tt
quiet (Calls.get_volume_snapshot _ _) = ok snapshot
quiet (Calls.list_volume_snapshots _) = ok []
quiet (Calls.patch_volume_snapshot _ _ _) = ok tt
quiet (Calls.create_job _ _) = ok tt
quiet (Calls.get_job _ _) = ok (pos 1)
quiet (Calls.delete_job _ _) = ok tt
quiet (Calls.create_replica_set _ _) = ok tt
quiet (Calls.list_replica_sets _) = ok []
quiet (Calls.get_replica_set _ _) = ok tt
quiet (Calls.delete_replica_set _ _) = ok tt
quiet (Calls.stat _) = ok 0
quiet (Calls.remove _) = ok tt
quiet (Calls.symlink _ _) = ok tt
quiet (Calls.chmod _ _) = ok tt
quiet Calls.context_err = none
quiet Calls.now = 0
quiet (Calls.sleep _) = tt
quiet Calls.back_off = tt
quiet Calls.queue_get = ("data", false)
quiet (Calls.queue_add _) = tt
quiet (Calls.queue_done _) = tt
quiet (Calls.queue_forget _) = tt
quiet (Calls.queue_add_rate_limited _) = tt
quiet (Calls.handle_error _) = tt
quiet Calls.queue_shut_down = tt
quiet (Calls.start_controller _) = tt
quiet Calls.start_informer = tt
quiet Calls.wait_for_cache_sync = true
quiet Calls.start_worker = tt
quiet Calls.wait_for_stop = tt
quiet Calls.in_cluster_config = ok tt
quiet Calls.new_clientset = ok tt
quiet Calls.new_snapshot_clientset = ok tt
quiet (Calls.listen _) = ok tt
quiet (Calls.start_monitor _) = tt
quiet (Calls.serve _) = ok tt
quiet (Calls.log_printf _) = tt
