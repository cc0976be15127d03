-- ===== src/Controller/Contents.antt =====
-- What the patches and the jobs of the controller say, written out.
use subprovisioner.Base.{String, ◌<>◌, ◌≡◌, refl, ◌⊎◌, false, List, [], ◌∷◌}
use subprovisioner.Base.Int.{ℤ, ltb_ℤ}
use subprovisioner.Base.Dict
use subprovisioner.Strconv.{format_int}
use subprovisioner.Kube.Objects.{Pvc, VolumeSnapshot, MetaPatch, Job, Container, VolumeMount}
use subprovisioner.Kube.Objects
use subprovisioner.Common.Config.{
  generate_creation_job_name, generate_snapshotting_job_name, generate_expansion_job_name,
  generate_volume_image_path,
}
use subprovisioner.Common.Job.{job_of}
use subprovisioner.Controller.Create.{Backing, new_volume_patch, creation_job}
use subprovisioner.Controller.Snapshot.{
  backing_of, snapshot_patch, snapshotting_job, snapshot_script,
}
use subprovisioner.Controller.Expand.{capacity_patch, expansion_job, expansion_script}

-- The larger of two sizes: one of them, and not smaller than the other.
abbrev pub IsLarger : ℤ → ℤ → ℤ → Type 0
IsLarger size capacity given =
    ((given ≡ size) × (ltb_ℤ size capacity ≡ false))
    ⊎ ((given ≡ capacity) × (ltb_ℤ capacity size ≡ false))

-- The claim that holds the images, its namespace and the path of the images in it.
pub record Place : Type 0 where
  pub claim : String
  pub namespace : String
  pub path : String

-- Where an existing volume's annotations say that its image lies.
abbrev pub annotated_place : Pvc → Place
annotated_place pvc = record {
  claim = Dict.get pvc.annotations "subprovisioner.gitlab.io/backing-pvc-name";
  namespace = Dict.get pvc.annotations "subprovisioner.gitlab.io/backing-pvc-namespace";
  path = Dict.get pvc.annotations "subprovisioner.gitlab.io/backing-pvc-base-path";
}

-- A patch's annotations name this place.
pub record Places (patch : MetaPatch) (place : Place) : Type 0 where
  pub claim : Dict.get patch.annotations "subprovisioner.gitlab.io/backing-pvc-name" ≡ place.claim
  pub namespace :
      Dict.get patch.annotations "subprovisioner.gitlab.io/backing-pvc-namespace" ≡ place.namespace
  pub path :
      Dict.get patch.annotations "subprovisioner.gitlab.io/backing-pvc-base-path" ≡ place.path

-- The claim becomes an idle volume, found by its uid, of this place and capacity, that the monitor
-- cleans up.
pub record MarksVolume (patch : MetaPatch) (place : Place) (uid : String) (capacity : ℤ)
    : Type 0 where
  pub found_by : Dict.get patch.labels "subprovisioner.gitlab.io/uid" ≡ uid
  pub placed : Places patch place
  pub sized : Dict.get patch.annotations "subprovisioner.gitlab.io/capacity" ≡ format_int capacity
  pub idle : Dict.get patch.annotations "subprovisioner.gitlab.io/state" ≡ "idle"
  pub cleaned_up : patch.finalizers ≡ "subprovisioner.gitlab.io/cleanup" ∷ []

-- The snapshot is found by its uid, has this place and size.
pub record MarksSnapshot (patch : MetaPatch) (place : Place) (uid : String) (size : ℤ)
    : Type 0 where
  pub found_by : Dict.get patch.labels "subprovisioner.gitlab.io/uid" ≡ uid
  pub placed : Places patch place
  pub sized : Dict.get patch.annotations "subprovisioner.gitlab.io/size" ≡ format_int size

-- The claim goes back to idle with this capacity, and nothing else changes.
pub record RecordsCapacity (patch : MetaPatch) (capacity : ℤ) : Type 0 where
  pub sized : Dict.get patch.annotations "subprovisioner.gitlab.io/capacity" ≡ format_int capacity
  pub idle : Dict.get patch.annotations "subprovisioner.gitlab.io/state" ≡ "idle"
  pub kept : (patch.labels ≡ []) × (patch.finalizers ≡ [])

-- A job of this name, in the namespace of the place, whose only container runs the command with the
-- place's path mounted where the images are looked for.
pub record Runs (job : Job) (name image : String) (place : Place) (command : List String)
    : Type 0 where
  pub named : job.name ≡ name
  pub namespaced : job.namespace ≡ place.namespace
  pub container : Container
  pub alone : job.pod_spec.containers ≡ container ∷ []
  pub pulled : container.image ≡ image
  pub runs : (container.command ≡ command) × (container.args ≡ [])
  pub mounted :
      container.volume_mounts
      ≡ record { name = "backing"; mount_path = "/var/backing"; sub_path = place.path } ∷ []
  pub backed :
      job.pod_spec.volumes ≡ record { name = "backing"; source = Objects.claim place.claim } ∷ []

abbrev pub place_of : Backing → Place
place_of backing = record {
  claim = backing.pvc_name;
  namespace = backing.pvc_namespace;
  path = backing.base_path;
}

-- The patch that makes a claim idle and does nothing else.
abbrev pub back_to_idle : MetaPatch
back_to_idle = record {
  labels = [];
  annotations = ("subprovisioner.gitlab.io/state", "idle") ∷ [];
  finalizers = [];
}

pub new_volume-MarksVolume :
    (backing : Backing) (pvc : Pvc) (capacity : ℤ)
    → MarksVolume (new_volume_patch backing pvc capacity) (place_of backing) pvc.uid capacity
new_volume-MarksVolume backing pvc capacity = record {
  found_by = refl;
  placed = record { claim = refl; namespace = refl; path = refl };
  sized = refl;
  idle = refl;
  cleaned_up = refl;
}

pub snapshot-MarksSnapshot :
    (snapshot : VolumeSnapshot) (pvc : Pvc) (size : ℤ)
    → MarksSnapshot
        (snapshot_patch snapshot (backing_of pvc) size)
        (annotated_place pvc)
        snapshot.uid
        size
unfolding backing_of
snapshot-MarksSnapshot snapshot pvc size = record {
  found_by = refl;
  placed = record { claim = refl; namespace = refl; path = refl };
  sized = refl;
}

pub capacity-RecordsCapacity : (capacity : ℤ) → RecordsCapacity (capacity_patch capacity) capacity
capacity-RecordsCapacity capacity = record { sized = refl; idle = refl; kept = (refl, refl) }

pub creation-Runs :
    (image : String) (backing : Backing) (pvc : Pvc) (command : List String)
    → Runs
        (job_of (creation_job image backing pvc command))
        ("subprovisioner-create-" <> pvc.uid)
        image
        (place_of backing)
        command
unfolding job_of creation_job generate_creation_job_name
creation-Runs image backing pvc command = record {
  named = refl;
  namespaced = refl;
  container = _;
  alone = refl;
  pulled = refl;
  runs = (refl, refl);
  mounted = refl;
  backed = refl;
}

pub snapshotting-Runs :
    (image : String) (pvc : Pvc) (snapshot : VolumeSnapshot)
    → Runs
        (job_of (snapshotting_job image pvc snapshot))
        ("subprovisioner-snapshot-" <> snapshot.uid)
        image
        (annotated_place pvc)
        ("bash"
          ∷ "-c"
          ∷ snapshot_script
          ∷ "bash"
          ∷ ("pvc-" <> (pvc.uid <> ".qcow2"))
          ∷ ("snapshot-" <> (snapshot.uid <> ".qcow2"))
          ∷ [])
unfolding job_of snapshotting_job backing_of generate_snapshotting_job_name
snapshotting-Runs image pvc snapshot = record {
  named = refl;
  namespaced = refl;
  container = _;
  alone = refl;
  pulled = refl;
  runs = (refl, refl);
  mounted = refl;
  backed = refl;
}

pub expansion-Runs :
    (image : String) (pvc : Pvc) (capacity : ℤ)
    → Runs
        (job_of (expansion_job image pvc capacity))
        ("subprovisioner-expand-" <> pvc.uid)
        image
        (annotated_place pvc)
        ("bash"
          ∷ "-c"
          ∷ expansion_script
          ∷ "bash"
          ∷ ("/var/backing/pvc-" <> (pvc.uid <> ".qcow2"))
          ∷ format_int capacity
          ∷ [])
unfolding job_of expansion_job backing_of generate_expansion_job_name generate_volume_image_path
expansion-Runs image pvc capacity = record {
  named = refl;
  namespaced = refl;
  container = _;
  alone = refl;
  pulled = refl;
  runs = (refl, refl);
  mounted = refl;
  backed = refl;
}
