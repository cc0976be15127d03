-- ===== src/Controller/Create/Sources.antt =====
-- The source that a creation looks up, with its size, and the commands that make images.
use subprovisioner.Base.{List, ◌<>◌, String, ◌≡◌, refl, some, [], ◌∷◌, inl, inr}
use subprovisioner.Strconv.{format_int, parse_int}
use subprovisioner.Controller.Create.{clone_script}
use subprovisioner.Base.Int.{ℤ}
use subprovisioner.Base.Dict
use subprovisioner.Kube.Objects.{Pvc, VolumeSnapshot}
use subprovisioner.Kube.Errors.{ok, err}
use subprovisioner.Kube.Calls.{Event, event, History, list_pvcs, list_volume_snapshots}
use subprovisioner.Kube.Contract.{Lasting, Meets, Success, Saw, AnyCall}
use subprovisioner.Common.Config.{key}
use subprovisioner.Common.Pvc.{find_pvc_by_label_selector}
use subprovisioner.Common.Snapshot.{find_volume_snapshot_by_label_selector}

-- A lookup by this selector found one claim, or one snapshot.
abbrev pub FoundPvc : String → Pvc → Event → Type 0
FoundPvc selector source (event (list_pvcs s) (ok (found ∷ []))) = (s ≡ selector) × (found ≡ source)
FoundPvc selector source _ = ⊥

abbrev pub FoundSnapshot : String → VolumeSnapshot → Event → Type 0
FoundSnapshot selector source (event (list_volume_snapshots s) (ok (found ∷ []))) =
    (s ≡ selector) × (found ≡ source)
FoundSnapshot selector source _ = ⊥

abbrev pub PvcSize : String → Pvc → ℤ → History → Type 0
PvcSize uid source size h =
    Saw (FoundPvc (key "/uid=" <> uid) source) h
    × (parse_int (Dict.get source.annotations (key "/capacity")) ≡ some size)

abbrev pub SnapshotSize : String → VolumeSnapshot → ℤ → History → Type 0
SnapshotSize uid source size h =
    Saw (FoundSnapshot (key "/uid=" <> uid) source) h
    × (parse_int (Dict.get source.annotations (key "/size")) ≡ some size)

pub Meets-find_pvc :
    (selector : String) (h : History)
    → Meets AnyCall
        (Success (λ g source. Saw (FoundPvc selector source) g))
        h
        (find_pvc_by_label_selector selector)
unfolding Meets find_pvc_by_label_selector
Meets-find_pvc selector h = (
  tt,
  elim [ ok [] ↦ tt | ok (found ∷ []) ↦ inl (refl, refl) | ok (_ ∷ _ ∷ _) ↦ tt | err e ↦ tt ],
)

pub Meets-find_volume_snapshot :
    (selector : String) (h : History)
    → Meets AnyCall
        (Success (λ g source. Saw (FoundSnapshot selector source) g))
        h
        (find_volume_snapshot_by_label_selector selector)
unfolding Meets find_volume_snapshot_by_label_selector
Meets-find_volume_snapshot selector h = (
  tt,
  elim [ ok [] ↦ tt | ok (found ∷ []) ↦ inl (refl, refl) | ok (_ ∷ _ ∷ _) ↦ tt | err e ↦ tt ],
)

pub PvcSize-Lasting : (uid : String) (source : Pvc) (size : ℤ) → Lasting (PvcSize uid source size)
PvcSize-Lasting uid source size h e (found, parsed) = (inr found, parsed)

pub SnapshotSize-Lasting :
    (uid : String) (source : VolumeSnapshot) (size : ℤ) → Lasting (SnapshotSize uid source size)
SnapshotSize-Lasting uid source size h e (found, parsed) = (inr found, parsed)

-- The command that makes an image of its own.
abbrev pub empty_command : String → ℤ → List String
empty_command uid size =
    "qemu-img"
    ∷ "create"
    ∷ "-f"
    ∷ "qcow2"
    ∷ ("/var/backing/pvc-" <> (uid <> ".qcow2"))
    ∷ format_int size
    ∷ []

-- The command that makes an image on that of a snapshot.
abbrev pub based_command : String → VolumeSnapshot → ℤ → List String
based_command uid source size =
    "qemu-img"
    ∷ "create"
    ∷ "-f"
    ∷ "qcow2"
    ∷ "-b"
    ∷ ("snapshot-" <> (source.uid <> ".qcow2"))
    ∷ "-F"
    ∷ "qcow2"
    ∷ ("/var/backing/pvc-" <> (uid <> ".qcow2"))
    ∷ format_int size
    ∷ []

-- The script of a clone, with the source, the new image, their common ancestor and the size.
abbrev pub cloned_command : String → Pvc → ℤ → List String
cloned_command uid source size =
    "bash"
    ∷ "-c"
    ∷ clone_script
    ∷ "bash"
    ∷ ("/var/backing/pvc-" <> (source.uid <> ".qcow2"))
    ∷ ("/var/backing/pvc-" <> (uid <> ".qcow2"))
    ∷ ("cloned-" <> (source.uid <> ("-to-" <> (uid <> ".qcow2"))))
    ∷ format_int size
    ∷ []
