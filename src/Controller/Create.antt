-- ===== src/Controller/Create.antt =====
-- pkg/csiplugin/controller/csi.go, `CreateVolume` and the three ways to make a volume's image. `lib`
-- is the code that is not the plugin's, `rounds` bounds each polling loop and `image` is `s.Image`.
pub mod Sources
pub mod Sizes
pub mod Order
pub mod Whole
pub mod Annotations
pub mod Refusal
pub mod Requests
use subprovisioner.Base.{
  ℕ, String, ◌<>◌, ◌==◌, not, ◌&&◌, Option, none, some, List, [], ◌∷◌, if◌then◌else◌,
}
use subprovisioner.Base.Int.{ℤ, pos, ltb_ℤ, eq_ℤ}
use subprovisioner.Base.Dict
use subprovisioner.Base.Dict.{Dict}
use subprovisioner.Strconv.{format_int, parse_int}
use subprovisioner.Kube.Objects.{Pvc, MetaPatch}
use subprovisioner.Kube.Errors.{Error, Result, ok, err, status, invalid_argument, unknown}
use subprovisioner.Kube.Calls.{get_pvc}
use subprovisioner.Kube.Prog.{Prog, ret, fail, call, lift, or_fail, ◌>>=◌, ◌>>◌}
use subprovisioner.Kube.Libraries.{Libraries}
use subprovisioner.Common.Config.{key, generate_volume_image_path, generate_creation_job_name}
use subprovisioner.Common.Pvc.{
  find_pvc_by_label_selector, strategic_merge_patch_pvc, set_pvc_state_to, set_pvc_state_to_idle,
}
use subprovisioner.Common.Job.{JobConfig, create_job, wait_for_job_to_succeed}
use subprovisioner.Common.Snapshot.{find_volume_snapshot_by_label_selector}
use subprovisioner.Controller.Capacity.{validate_capacity}
use subprovisioner.Controller.Requests.{
  AccessMode, single_node_writer, single_node_reader_only, multi_node_reader_only,
  single_node_single_writer, single_node_multi_writer, VolumeCapability, VolumeContentSource,
  from_volume, from_snapshot, other_source, CreateVolumeRequest, CreateVolumeResponse,
}

-- The closure `getParameter`.
unfoldable pub get_parameter : Dict → String → Result String
get_parameter parameters name =
    let value = Dict.get parameters name in
    if value == ""
    then err (status invalid_argument ("missing/empty parameter \"" <> (name <> "\"")))
    else ok value

abbrev check_mode : AccessMode → Result (Unit {0})
check_mode single_node_writer = ok tt
check_mode single_node_reader_only = ok tt
check_mode multi_node_reader_only = ok tt
check_mode single_node_single_writer = ok tt
check_mode single_node_multi_writer = ok tt
check_mode _ = err (
    status invalid_argument
      "only access modes ReadWriteOnce, ReadWriteOncePod, and ReadOnlyMany are supported")

-- The loop over the capabilities.
unfoldable pub check_capabilities : List VolumeCapability → Result (Unit {0})
check_capabilities [] = ok tt
check_capabilities (capability ∷ capabilities) =
    let rest = check_capabilities capabilities in
    if capability.block
    then elim (check_mode capability.access_mode) [ ok _ ↦ rest | err e ↦ err e ]
    else err (status invalid_argument "only block volumes are supported")

-- Where the images of a volume lie.
pub record Backing : Type 0 where
  pub pvc_name : String
  pub pvc_namespace : String
  pub base_path : String

-- The job that makes the image of a volume.
unfoldable pub creation_job : String → Backing → Pvc → List String → JobConfig
creation_job image backing pvc command = record {
  name = generate_creation_job_name pvc.uid;
  namespace = backing.pvc_namespace;
  labels = (key "/component", "volume-creation") ∷ (key "/pvc-uid", pvc.uid) ∷ [];
  image = image;
  command = command;
  args = [];
  backing_pvc_name = backing.pvc_name;
  backing_pvc_base_path = backing.base_path;
}

module _ (rounds : ℕ) (image : String) where
  -- `CreateJob` and `WaitForJobToSucceed`, as all three ways end.
  unfoldable pub run_creation_job : Backing → Pvc → List String → Prog (Unit {0})
  run_creation_job backing pvc command = do
    create_job (creation_job image backing pvc command)
    wait_for_job_to_succeed rounds (generate_creation_job_name pvc.uid) backing.pvc_namespace

  unfoldable pub create_volume_from_nothing : Backing → Pvc → ℤ → Prog (Unit {0})
  unfolding run_creation_job
  create_volume_from_nothing backing pvc capacity = run_creation_job backing pvc (
      "qemu-img"
      ∷ "create"
      ∷ "-f"
      ∷ "qcow2"
      ∷ generate_volume_image_path pvc.uid
      ∷ format_int capacity
      ∷ [])

-- The script of a clone, after `dedent`.
abbrev pub clone_script : String
clone_script =
    "\nset -o errexit -o pipefail -o nounset -o xtrace\n\nsource=\"$1\"\ndest=\"$2\"\ncommon_ancestor_relative=\"$3\"\ncapacity=\"$4\"\n\n# It's okay if we leave the \"destination\" volume image messed up when volume creation is cancelled, but\n# the same doesn't hold for the \"source\" volume image. Hence we replace the source volume image\n# atomically as the last operation.\n\nln -f \"${source}\" \"/var/backing/${common_ancestor_relative}\"\n\nqemu-img create -f qcow2 -b \"${common_ancestor_relative}\" -F qcow2 \"${dest}\" \"${capacity}\"\n\nqemu-img create -f qcow2 -b \"${common_ancestor_relative}\" -F qcow2 \"${source}.new\"\nmv -f \"${source}.new\" \"${source}\"\n\nchmod a-w \"/var/backing/${common_ancestor_relative}\"  # should never modify this image\n"

abbrev pub too_large : String → ℤ → ℤ → Error
too_large what size max_capacity = status invalid_argument (
    what
    <> (" ("
        <> (format_int size
            <> (") exceeds maximum capacity (" <> (format_int max_capacity <> ")")))))

-- `maxCapacity != 0 && size > maxCapacity`, with the message of the source at hand.
unfoldable pub check_source_size : String → ℤ → ℤ → Prog (Unit {0})
check_source_size what size max_capacity =
    if not (eq_ℤ max_capacity (pos 0)) && ltb_ℤ max_capacity size
    then fail (too_large what size max_capacity)
    else ret tt

-- `if capacity < size { capacity = size }`
abbrev pub at_least : ℤ → ℤ → ℤ
at_least size capacity = if ltb_ℤ capacity size then size else capacity

-- The labels, annotations and finalizer that a new volume's claim is given.
abbrev pub new_volume_patch : Backing → Pvc → ℤ → MetaPatch
new_volume_patch backing pvc capacity = record {
  labels = (key "/uid", pvc.uid) ∷ [];
  annotations =
      (key "/backing-pvc-name", backing.pvc_name)
      ∷ (key "/backing-pvc-namespace", backing.pvc_namespace)
      ∷ (key "/backing-pvc-base-path", backing.base_path)
      ∷ (key "/capacity", format_int capacity)
      ∷ (key "/state", "idle")
      ∷ [];
  finalizers = key "/cleanup" ∷ [];
}

module _ (lib : Libraries) (rounds : ℕ) (image : String) where
  -- From the state update on.
  unfoldable pub clone_pvc : Backing → Pvc → ℤ → ℤ → Pvc → Prog (Unit {0})
  unfolding run_creation_job
  clone_pvc backing dest_pvc capacity max_capacity source_pvc = do
    set_pvc_state_to lib source_pvc.name source_pvc.namespace "cloning"
    source_capacity ←
        or_fail (parse_int (Dict.get source_pvc.annotations (key "/capacity")))
          (status unknown "failed to determine source volume capacity")
    check_source_size "source volume capacity" source_capacity max_capacity
    run_creation_job rounds image backing dest_pvc (
        "bash"
        ∷ "-c"
        ∷ clone_script
        ∷ "bash"
        ∷ generate_volume_image_path source_pvc.uid
        ∷ generate_volume_image_path dest_pvc.uid
        ∷ ("cloned-" <> (source_pvc.uid <> ("-to-" <> (dest_pvc.uid <> ".qcow2"))))
        ∷ format_int (at_least source_capacity capacity)
        ∷ [])
    set_pvc_state_to_idle source_pvc.name source_pvc.namespace

  unfoldable pub create_volume_from_volume : Backing → Pvc → ℤ → ℤ → String → Prog (Unit {0})
  create_volume_from_volume backing dest_pvc capacity max_capacity source_pvc_uid = do
    source_pvc ← find_pvc_by_label_selector (key "/uid=" <> source_pvc_uid)
    clone_pvc backing dest_pvc capacity max_capacity source_pvc

  unfoldable pub create_volume_from_snapshot : Backing → Pvc → ℤ → ℤ → String → Prog (Unit {0})
  unfolding run_creation_job
  create_volume_from_snapshot backing dest_pvc capacity max_capacity volume_snapshot_uid = do
    volume_snapshot ← find_volume_snapshot_by_label_selector (key "/uid=" <> volume_snapshot_uid)
    snapshot_size ←
        or_fail (parse_int (Dict.get volume_snapshot.annotations (key "/size")))
          (status unknown "failed to determine source snapshot size")
    check_source_size "source snapshot size" snapshot_size max_capacity
    run_creation_job rounds image backing dest_pvc (
        "qemu-img"
        ∷ "create"
        ∷ "-f"
        ∷ "qcow2"
        ∷ "-b"
        ∷ ("snapshot-" <> (volume_snapshot.uid <> ".qcow2"))
        ∷ "-F"
        ∷ "qcow2"
        ∷ ("/var/backing/pvc-" <> (dest_pvc.uid <> ".qcow2"))
        ∷ format_int (at_least snapshot_size capacity)
        ∷ [])

  -- The `if` chain over the content source.
  unfoldable pub create_image : Backing → Pvc → ℤ → ℤ → Option VolumeContentSource → Prog (Unit {0})
  create_image backing pvc capacity max_capacity none =
      create_volume_from_nothing rounds image backing pvc capacity
  create_image backing pvc capacity max_capacity (some (from_volume uid)) =
      create_volume_from_volume backing pvc capacity max_capacity uid
  create_image backing pvc capacity max_capacity (some (from_snapshot uid)) =
      create_volume_from_snapshot backing pvc capacity max_capacity uid
  create_image backing pvc capacity max_capacity (some other_source) =
      fail (status invalid_argument "unsupported volume content source")

  -- The claim as it was read is marked with the validated capacity.
  unfoldable pub mark_pvc : String → String → Backing → Pvc → ℤ → Prog (Unit {0})
  mark_pvc pvc_name pvc_namespace backing pvc capacity =
      strategic_merge_patch_pvc pvc_name pvc_namespace (new_volume_patch backing pvc capacity)

  unfoldable pub create_volume : CreateVolumeRequest → Prog CreateVolumeResponse
  unfolding get_parameter
  create_volume req = do
    pvc_name ← lift (get_parameter req.parameters "csi.storage.k8s.io/pvc/name")
    pvc_namespace ← lift (get_parameter req.parameters "csi.storage.k8s.io/pvc/namespace")
    backing_pvc_name ← lift (get_parameter req.parameters "backingClaimName")
    backing_pvc_namespace ← lift (get_parameter req.parameters "backingClaimNamespace")
    let backing_pvc_base_path = Dict.get req.parameters "basePath"
    let backing : Backing = record {
      pvc_name = backing_pvc_name;
      pvc_namespace = backing_pvc_namespace;
      base_path = backing_pvc_base_path;
    }
    pvc ← call (get_pvc pvc_namespace pvc_name) lift
    capacities ← lift (validate_capacity req.capacity_range)
    let capacity = capacities.capacity
    lift (check_capabilities req.volume_capabilities)
    mark_pvc pvc_name pvc_namespace backing pvc capacity
    create_image backing pvc capacity capacities.max_capacity req.volume_content_source
    ret (record {
      capacity_bytes = capacity;
      volume_id = pvc.uid;
      volume_context =
          ("pvcName", pvc_name)
          ∷ ("pvcNamespace", pvc_namespace)
          ∷ ("backingPvcName", backing_pvc_name)
          ∷ ("backingPvcNamespace", backing_pvc_namespace)
          ∷ ("backingPvcBasePath", backing_pvc_base_path)
          ∷ [];
      content_source = req.volume_content_source;
    })
