-- ===== src/Kube/Objects.antt =====
-- The Kubernetes objects, down to the fields that the plugin reads or writes.
use subprovisioner.Base.{String, Bool, Option, List}
use subprovisioner.Base.Int.{ℤ}
use subprovisioner.Base.Dict.{Dict}

-- A PersistentVolumeClaim. `resource_version` is what the API server compares on an update.
pub record Pvc : Type 0 where
  pub name : String
  pub namespace : String
  pub uid : String
  pub resource_version : String
  pub deletion_timestamp : Option String
  pub labels : Dict
  pub annotations : Dict
  pub finalizers : List String

pub record VolumeSnapshot : Type 0 where
  pub name : String
  pub namespace : String
  pub uid : String
  pub annotations : Dict

-- The metadata of a merge patch.
pub record MetaPatch : Type 0 where
  pub labels : Dict
  pub annotations : Dict
  pub finalizers : List String

pub record VolumeMount : Type 0 where
  pub name : String
  pub mount_path : String
  pub sub_path : String

pub data VolumeSource : Type 0 where
  claim : String → VolumeSource
  host_directory : String → VolumeSource

pub record Volume : Type 0 where
  pub name : String
  pub source : VolumeSource

pub record Container : Type 0 where
  pub name : String
  pub image : String
  pub command : List String
  pub args : List String
  pub privileged : Bool
  pub volume_mounts : List VolumeMount

pub record PodSpec : Type 0 where
  pub node_name : String
  pub restart_policy : String
  pub containers : List Container
  pub volumes : List Volume

pub record Job : Type 0 where
  pub name : String
  pub namespace : String
  pub labels : Dict
  pub backoff_limit : ℤ
  pub pod_spec : PodSpec

pub record ReplicaSet : Type 0 where
  pub name : String
  pub namespace : String
  pub labels : Dict
  pub annotations : Dict
  pub replicas : ℤ
  pub match_labels : Dict
  pub template_labels : Dict
  pub pod_spec : PodSpec
