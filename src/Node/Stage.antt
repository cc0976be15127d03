-- ===== src/Node/Stage.antt =====
-- pkg/csiplugin/node/csi.go, `NodeStageVolume` and `NodeUnstageVolume`.
pub mod Order
pub mod Leaving
pub mod Repeating
use subprovisioner.Base.{ℕ, String, ◌<>◌, Bool, true, false, [], ◌∷◌, if◌then◌else◌}
use subprovisioner.Base.Int.{pos}
use subprovisioner.Base.Dict
use subprovisioner.Base.Dict.{Dict}
use subprovisioner.Kube.Objects
use subprovisioner.Kube.Errors.{
  Result, ok, err, status, invalid_argument, is_not_found, is_not_exist,
}
use subprovisioner.Kube.Calls.{remove}
use subprovisioner.Kube.Prog.{Prog, ret, fail, call, catch, ◌>>=◌, ◌>>◌}
use subprovisioner.Kube.Libraries.{Libraries}
use subprovisioner.Common.Config.{
  key, generate_volume_image_path, generate_staging_replica_set_name,
}
use subprovisioner.Common.Pvc.{find_pvc_by_label_selector, stage_pvc_on_node, unstage_pvc_from_node}
use subprovisioner.Common.ReplicaSet.{
  ReplicaSetConfig, create_replica_set, find_replica_set_by_label_selector,
  delete_replica_set_synchronously,
}
use subprovisioner.Common.Util.{wait_until_file_is_block_device}
use subprovisioner.Controller.Requests.{
  AccessMode, single_node_reader_only, multi_node_reader_only, VolumeCapability,
}

pub record NodeStageVolumeRequest : Type 0 where
  pub volume_id : String
  pub volume_context : Dict
  pub staging_target_path : String
  pub volume_capability : VolumeCapability

pub record NodeUnstageVolumeRequest : Type 0 where
  pub volume_id : String
  pub staging_target_path : String

unfoldable pub is_readonly : AccessMode → Bool
is_readonly single_node_reader_only = true
is_readonly multi_node_reader_only = true
is_readonly _ = false

-- `strconv.FormatBool`
abbrev format_bool : Bool → String
format_bool true = "true"
format_bool false = "false"

abbrev staging_labels : String → String → Dict
staging_labels node_name pvc_uid =
    (key "/component", "volume-staging")
    ∷ (key "/node-name", node_name)
    ∷ (key "/pvc-uid", pvc_uid)
    ∷ []

-- The three conditions, joined by commas.
unfoldable pub staging_selector : String → String → String
staging_selector node_name pvc_uid =
    key "/component=volume-staging,"
    <> (key "/node-name=" <> (node_name <> ("," <> (key "/pvc-uid=" <> pvc_uid))))

module _ (lib : Libraries) (rounds : ℕ) (image node_name : String) where
  unfoldable pub staging_replica_set : NodeStageVolumeRequest → ReplicaSetConfig
  unfolding is_readonly
  staging_replica_set req =
      let context = Dict.get req.volume_context in
      record {
        name = generate_staging_replica_set_name lib req.volume_id node_name;
        namespace = context "backingPvcNamespace";
        labels = staging_labels node_name req.volume_id;
        annotations =
            (key "/pvc-name", context "pvcName")
            ∷ (key "/pvc-namespace", context "pvcNamespace")
            ∷ (key "/backing-pvc-name", context "backingPvcName")
            ∷ (key "/backing-pvc-namespace", context "backingPvcNamespace")
            ∷ [];
        match_labels = staging_labels node_name req.volume_id;
        replicas = pos 1;
        node_name = node_name;
        image = image;
        command =
            "/subprovisioner/qsd-with-nbd.sh"
            ∷ generate_volume_image_path req.volume_id
            ∷ req.staging_target_path
            ∷ format_bool (is_readonly req.volume_capability.access_mode)
            ∷ [];
        args = [];
        backing_pvc_name = context "backingPvcName";
        backing_pvc_base_path = context "backingPvcBasePath";
      }

  unfoldable pub node_stage_volume : NodeStageVolumeRequest → Prog (Unit {0})
  node_stage_volume req =
      if req.volume_capability.block
      then (do
        stage_pvc_on_node lib (Dict.get req.volume_context "pvcName")
            (Dict.get req.volume_context "pvcNamespace") node_name
        create_replica_set (staging_replica_set req)
        wait_until_file_is_block_device rounds req.staging_target_path)
      else fail (status invalid_argument "expected a block volume")

-- `os.Remove(path)`, where a missing file is no error.
unfoldable pub remove_if_exists : String → Prog (Unit {0})
remove_if_exists path =
    call (remove path)
      λ r. elim r [ ok _ ↦ ret tt | err e ↦ if is_not_exist e then ret tt else fail e ]

module _ (lib : Libraries) (rounds : ℕ) (node_name : String) where
  -- What follows the search for the replica set.
  unfoldable pub delete_staging : Result Objects.ReplicaSet → Prog (Unit {0})
  delete_staging (ok replica_set) =
      delete_replica_set_synchronously rounds replica_set.name replica_set.namespace
  delete_staging (err e) = if is_not_found e then ret tt else fail e

  unfoldable pub node_unstage_volume : NodeUnstageVolumeRequest → Prog (Unit {0})
  node_unstage_volume req = do
    found ← catch (find_replica_set_by_label_selector (staging_selector node_name req.volume_id))
    delete_staging found
    remove_if_exists req.staging_target_path
    pvc ← find_pvc_by_label_selector (key "/uid=" <> req.volume_id)
    unstage_pvc_from_node lib pvc.name pvc.namespace node_name
