-- ===== src/Controller/Requests.antt =====
-- The CSI messages of the controller service, down to the fields that the plugin reads or writes.
use subprovisioner.Base.{ℕ, String, Bool, Option, List}
use subprovisioner.Base.Int.{ℤ}
use subprovisioner.Base.Dict.{Dict}
use subprovisioner.Controller.Capacity.{CapacityRange}

pub data AccessMode : Type 0 where
  unknown_mode single_node_writer single_node_reader_only multi_node_reader_only : AccessMode
  multi_node_single_writer multi_node_multi_writer : AccessMode
  single_node_single_writer single_node_multi_writer : AccessMode

-- `block` is `GetBlock() != nil`. The access mode is a required field.
pub record VolumeCapability : Type 0 where
  pub block : Bool
  pub access_mode : AccessMode

pub data VolumeContentSource : Type 0 where
  from_volume : String → VolumeContentSource
  from_snapshot : String → VolumeContentSource
  other_source : VolumeContentSource

pub record CreateVolumeRequest : Type 0 where
  pub parameters : Dict
  pub capacity_range : Option CapacityRange
  pub volume_capabilities : List VolumeCapability
  pub volume_content_source : Option VolumeContentSource

pub record CreateVolumeResponse : Type 0 where
  pub capacity_bytes : ℤ
  pub volume_id : String
  pub volume_context : Dict
  pub content_source : Option VolumeContentSource

pub record CreateSnapshotRequest : Type 0 where
  pub parameters : Dict
  pub source_volume_id : String

pub record CreateSnapshotResponse : Type 0 where
  pub size_bytes : ℤ
  pub snapshot_id : String
  pub source_volume_id : String
  pub creation_time : ℕ
  pub ready_to_use : Bool

pub record ControllerExpandVolumeRequest : Type 0 where
  pub volume_id : String
  pub capacity_range : Option CapacityRange

pub record ControllerExpandVolumeResponse : Type 0 where
  pub capacity_bytes : ℤ
  pub node_expansion_required : Bool
