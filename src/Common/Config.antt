-- ===== src/Common/Config.antt =====
-- pkg/csiplugin/common/config.go: the names of files and Kubernetes objects.
pub mod Names
use subprovisioner.Base.{String, ◌<>◌}
use subprovisioner.Kube.Libraries.{Libraries}

abbrev pub domain : String
domain = "subprovisioner.gitlab.io"

abbrev pub version : String
version = "0.0.0"

-- An annotation, label or finalizer of the plugin.
abbrev pub key : String → String
key suffix = domain <> suffix

unfoldable pub generate_volume_image_path : String → String
generate_volume_image_path pvc_uid = "/var/backing/pvc-" <> (pvc_uid <> ".qcow2")

unfoldable pub generate_snapshot_image_path : String → String
generate_snapshot_image_path volume_snapshot_uid =
    "/var/backing/snapshot-" <> (volume_snapshot_uid <> ".qcow2")

unfoldable pub generate_creation_job_name : String → String
generate_creation_job_name pvc_uid = "subprovisioner-create-" <> pvc_uid

unfoldable pub generate_deletion_job_name : String → String
generate_deletion_job_name pvc_uid = "subprovisioner-delete-" <> pvc_uid

unfoldable pub generate_snapshotting_job_name : String → String
generate_snapshotting_job_name volume_snapshot_uid =
    "subprovisioner-snapshot-" <> volume_snapshot_uid

unfoldable pub generate_expansion_job_name : String → String
generate_expansion_job_name pvc_uid = "subprovisioner-expand-" <> pvc_uid

unfoldable pub generate_staging_replica_set_name : Libraries → String → String → String
generate_staging_replica_set_name lib pvc_uid node_name =
    "subprovisioner-stage-" <> (pvc_uid <> ("-on-" <> lib.sha256_hex node_name))
