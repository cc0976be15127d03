-- ===== src/Ending.antt =====
-- The requests and the monitor's items come to an end when what they wait for does.
pub mod Controller
pub mod Node
pub mod Monitor
use subprovisioner.Base.{ℕ, String}
use subprovisioner.Kube.Run.{Environment}
use subprovisioner.Kube.Libraries.{Libraries, IsLawful}
use subprovisioner.Kube.Ends.{Ends}
use subprovisioner.Common.Job.Ending.{PromptJobs}
use subprovisioner.Common.ReplicaSet.Ending.{PromptReplicaSets}
use subprovisioner.Common.Util.Ending.{PromptFiles}
use subprovisioner.Controller.Requests.{
  CreateVolumeRequest, CreateSnapshotRequest, ControllerExpandVolumeRequest,
}
use subprovisioner.Controller.Create.{create_volume}
use subprovisioner.Controller.Snapshot.{create_snapshot}
use subprovisioner.Controller.Expand.{controller_expand_volume}
use subprovisioner.Controller.Monitor.{process_next_item}
use subprovisioner.Node.Stage.{
  NodeStageVolumeRequest, NodeUnstageVolumeRequest, node_stage_volume, node_unstage_volume,
}
use subprovisioner.Node.Publish.{NodePublishVolumeRequest, node_publish_volume}
use subprovisioner.Ending.Controller.{
  Ends-create_volume, Ends-create_snapshot, Ends-controller_expand_volume,
}
use subprovisioner.Ending.Node.{Ends-node_stage_volume, Ends-node_unstage_volume, Ends-publish}
use subprovisioner.Ending.Monitor.{Ends-process_next_item}

-- Within this number of reads: a job that was to be created is read as succeeded or with an error; a
-- job and a replica set whose deletion was accepted are read with an error; and after a replica set
-- was to be created, a file is a block device or cannot be read.
pub record Prompt (env : Environment) (rounds : ℕ) : Type 0 where
  pub jobs : PromptJobs env rounds
  pub replica_sets : PromptReplicaSets env rounds
  pub files : PromptFiles env rounds

module _ (env : Environment) (lib : Libraries) (law : IsLawful lib) (rounds : ℕ)
    (prompt : Prompt env rounds) (image node_name : String) where
  -- Against every environment that settles, within the number of rounds, what is polled for: creating
  -- a volume or a snapshot, expanding, staging, unstaging and publishing a volume, and the monitor's
  -- handling of an item all return or fail, from every history and for every request.
  pub requests_end :
      ((req : CreateVolumeRequest) → Ends env (create_volume lib rounds image req))
      × ((req : CreateSnapshotRequest) → Ends env (create_snapshot lib rounds image req))
      × ((req : ControllerExpandVolumeRequest)
          → Ends env (controller_expand_volume lib rounds image req))
      × ((req : NodeStageVolumeRequest)
          → Ends env (node_stage_volume lib rounds image node_name req))
      × ((req : NodeUnstageVolumeRequest) → Ends env (node_unstage_volume lib rounds node_name req))
      × ((req : NodePublishVolumeRequest) → Ends env (node_publish_volume req))
      × Ends env (process_next_item lib rounds image)
  requests_end = (
    Ends-create_volume env lib law rounds prompt.jobs image,
    Ends-create_snapshot env lib law rounds prompt.jobs image,
    Ends-controller_expand_volume env lib law rounds prompt.jobs image,
    Ends-node_stage_volume env lib law rounds prompt.files image node_name,
    Ends-node_unstage_volume env lib law rounds prompt.replica_sets node_name,
    Ends-publish env,
    Ends-process_next_item env lib law rounds prompt.jobs image,
  )
