-- ===== src/Tests/Operations.antt =====
-- The orders of calls, on the volume of the fixtures.
use subprovisioner.Kube.Contract.{AnyCall, Meets, Success, Saw}
use subprovisioner.Controller.Create.Sizes.Reported.{Reported, create_volume_sizes}
use subprovisioner.Node.Publish.{NodePublishVolumeRequest, node_publish_volume}
use subprovisioner.Node.Publish.Order.{PublishOrder, Published, node_publish_volume_order}
use subprovisioner.Base.{true, [], some}
use subprovisioner.Base.Int.{pos}
use subprovisioner.Kube.Calls
use subprovisioner.Kube.Errors.{err, api, not_found}
use subprovisioner.Kube.Run.{Environment, run}
use subprovisioner.Common.Pvc.{set_pvc_state_to}
use subprovisioner.Common.Pvc.Claim.{ClaimOrder, Claimed, set_pvc_state_to_claims}
use subprovisioner.Controller.Create.{create_volume}
use subprovisioner.Controller.Create.Whole.{CreationOrder, Created, create_volume_order}
use subprovisioner.Controller.Snapshot.{snapshot_pvc}
use subprovisioner.Controller.Snapshot.Order.{SnapshotOrder, Snapshotted, snapshot_pvc_order}
use subprovisioner.Controller.Requests.{ControllerExpandVolumeRequest}
use subprovisioner.Controller.Capacity.Rounding.{range}
use subprovisioner.Controller.Expand.Whole.{RequestOrder, Answered, controller_expand_volume_order}
use subprovisioner.Controller.Expand.{expand_image, controller_expand_volume}
use subprovisioner.Controller.Expand.Order.{ExpansionOrder, Expanded, expand_image_order}
use subprovisioner.Controller.Monitor.{delete_volume, process_next_item}
use subprovisioner.Controller.Monitor.Order.{DeletionOrder, Released, delete_volume_order}
use subprovisioner.Controller.Monitor.Queue.{ItemDone, process_next_item_settles}
use subprovisioner.Node.Stage.{node_stage_volume, node_unstage_volume}
use subprovisioner.Node.Stage.Order.{StagingOrder, Staged, node_stage_volume_order}
use subprovisioner.Node.Stage.Leaving.{UnstagingOrder, Unstaged, node_unstage_volume_order}
use subprovisioner.Tests.Fixtures.{
  quiet, libraries, libraries-IsLawful, idle_pvc, snapshot, clone_request, stage_request,
  unstage_request,
}

delete_volume_order_example :
    Meets
      (DeletionOrder "img" idle_pvc)
      (Success Released)
      []
      (delete_volume libraries 3 "img" idle_pvc)
delete_volume_order_example = delete_volume_order libraries libraries-IsLawful 3 "img" idle_pvc

create_volume_order_example :
    Meets
      (CreationOrder "img" clone_request)
      (Success (Created "img" clone_request))
      []
      (create_volume libraries 3 "img" clone_request)
create_volume_order_example = create_volume_order "img" clone_request libraries libraries-IsLawful 3

snapshot_pvc_order_example :
    Meets
      (SnapshotOrder "img" "before" "default" snapshot idle_pvc)
      (Success (Snapshotted "img" "before" "default" snapshot idle_pvc))
      []
      (snapshot_pvc libraries 3 "img" "before" "default" snapshot idle_pvc)
snapshot_pvc_order_example =
    snapshot_pvc_order "img" "before" "default" snapshot idle_pvc libraries libraries-IsLawful 3

expand_image_order_example :
    Meets
      (ExpansionOrder "img" idle_pvc (pos 16384))
      (Success (Expanded "img" idle_pvc (pos 16384)))
      []
      (expand_image libraries 3 "img" idle_pvc (pos 16384))
expand_image_order_example =
    expand_image_order "img" idle_pvc (pos 16384) libraries libraries-IsLawful 3 []

abbrev expansion : ControllerExpandVolumeRequest
expansion = record { volume_id = "1234"; capacity_range = some (range 16000 0) }

controller_expand_volume_order_example :
    Meets
      (RequestOrder "img" expansion)
      (Success (Answered "img" expansion))
      []
      (controller_expand_volume libraries 3 "img" expansion)
controller_expand_volume_order_example =
    controller_expand_volume_order "img" expansion libraries libraries-IsLawful 3

set_pvc_state_to_claims_example :
    Meets
      (ClaimOrder "default" "data" "cloning")
      (Success (λ h _. Saw (Claimed "default" "data" "cloning") h))
      []
      (set_pvc_state_to libraries "data" "default" "cloning")
set_pvc_state_to_claims_example =
    set_pvc_state_to_claims "default" "data" "cloning" libraries libraries-IsLawful

node_stage_volume_order_example :
    Meets
      (StagingOrder "img" "n1" libraries libraries-IsLawful 3 stage_request)
      (Success (Staged "img" "n1" libraries libraries-IsLawful 3 stage_request))
      []
      (node_stage_volume libraries 3 "img" "n1" stage_request)
node_stage_volume_order_example =
    node_stage_volume_order "img" "n1" libraries libraries-IsLawful 3 stage_request

node_unstage_volume_order_example :
    Meets
      (UnstagingOrder "n1" unstage_request libraries libraries-IsLawful 3)
      (Success (Unstaged "n1" unstage_request libraries libraries-IsLawful 3))
      []
      (node_unstage_volume libraries 3 "n1" unstage_request)
node_unstage_volume_order_example =
    node_unstage_volume_order "n1" unstage_request libraries libraries-IsLawful 3

-- Every deleted job is gone at once, so the volume of the taken key is deleted.
abbrev prompt : Environment
prompt h (Calls.delete_job _ _) = err (api not_found)
prompt h c = quiet c

process_next_item_settles_example :
    ItemDone "data"
      (run prompt [] (process_next_item libraries 3 "img")).1
      (run prompt [] (process_next_item libraries 3 "img")).0
process_next_item_settles_example = process_next_item_settles libraries 3 "img" prompt

abbrev publish_request : NodePublishVolumeRequest
publish_request = record {
  staging_target_path = "/staging/1234";
  target_path = "/published";
  readonly = true;
}

create_volume_sizes_example :
    Meets AnyCall
      (Success (Reported "img" clone_request))
      []
      (create_volume libraries 3 "img" clone_request)
create_volume_sizes_example = create_volume_sizes "img" clone_request libraries 3

node_publish_volume_order_example :
    Meets
      (PublishOrder publish_request)
      (Success (Published publish_request))
      []
      (node_publish_volume publish_request)
node_publish_volume_order_example = node_publish_volume_order publish_request
