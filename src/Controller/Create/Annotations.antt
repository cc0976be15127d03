-- ===== src/Controller/Create/Annotations.antt =====
-- The capacity annotation, written and read back.
use subprovisioner.Base.{◌≡◌, some}
use subprovisioner.Base.Int.{ℤ, IsInt64}
use subprovisioner.Base.Dict
use subprovisioner.Strconv.{parse_int}
use subprovisioner.Strconv.RoundTrip.{parse_int-format_int}
use subprovisioner.Kube.Objects.{Pvc}
use subprovisioner.Common.Config.{key}
use subprovisioner.Controller.Create.{Backing, new_volume_patch}
use subprovisioner.Controller.Expand.{capacity_patch}

-- The capacity annotation that a creation or an expansion writes is read back by the clone's parser
-- as the same 64-bit number, negative ones included.
capacity_annotation_roundtrip :
    (backing : Backing) (pvc : Pvc) (capacity : ℤ)
    → IsInt64 capacity
    → (parse_int (Dict.get (new_volume_patch backing pvc capacity).annotations (key "/capacity"))
        ≡ some capacity)
      × (parse_int (Dict.get (capacity_patch capacity).annotations (key "/capacity"))
          ≡ some capacity)
unfolding capacity_patch
capacity_annotation_roundtrip backing pvc capacity fits =
    (parse_int-format_int capacity fits, parse_int-format_int capacity fits)
