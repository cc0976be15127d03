-- ===== src/Common/Config/Names.antt =====
-- The names of the jobs, which share the namespace of the backing volume.
use mathlib.Core.Option.{some-injective}
use text.Mathlib.TextLemmas.{append_assoc, append_inj, append_cancel_left}
use Prim.Native.String.{count}
use subprovisioner.Base.{
  String, ◌<>◌, ◌≡◌, refl, sym, ap, ◌∙◌, ◌==◌, Option, none, some, if◌then◌else◌,
}
use subprovisioner.Common.Config.{
  generate_creation_job_name, generate_deletion_job_name, generate_snapshotting_job_name,
  generate_expansion_job_name,
}

pub data JobKind : Type 0 where
  creation deletion snapshotting expansion : JobKind

-- The name of the job of a kind for a volume's or a snapshot's uid.
abbrev pub job_name : JobKind → String → String
job_name creation uid = generate_creation_job_name uid
job_name deletion uid = generate_deletion_job_name uid
job_name snapshotting uid = generate_snapshotting_job_name uid
job_name expansion uid = generate_expansion_job_name uid

-- A name's first sixteen characters tell the kind; the rest of the fixed part follows them.
abbrev tag : JobKind → String
tag creation = "subprovisioner-c"
tag deletion = "subprovisioner-d"
tag snapshotting = "subprovisioner-s"
tag expansion = "subprovisioner-e"

abbrev tail : JobKind → String
tail creation = "reate-"
tail deletion = "elete-"
tail snapshotting = "napshot-"
tail expansion = "xpand-"

job_name-tag : (kind : JobKind) (uid : String) → job_name kind uid ≡ tag kind <> (tail kind <> uid)
unfolding generate_creation_job_name generate_deletion_job_name generate_snapshotting_job_name
    generate_expansion_job_name
job_name-tag creation uid = append_assoc "subprovisioner-c" "reate-" uid
job_name-tag deletion uid = append_assoc "subprovisioner-d" "elete-" uid
job_name-tag snapshotting uid = append_assoc "subprovisioner-s" "napshot-" uid
job_name-tag expansion uid = append_assoc "subprovisioner-e" "xpand-" uid

kind_of : String → Option JobKind
kind_of text =
    if text == "subprovisioner-c"
    then some creation
    else if text == "subprovisioner-d"
    then some deletion
    else if text == "subprovisioner-s"
    then some snapshotting
    else if text == "subprovisioner-e"
    then some expansion
    else none

kind_of-tag : (kind : JobKind) → kind_of (tag kind) ≡ some kind
unfolding kind_of
kind_of-tag creation = refl
kind_of-tag deletion = refl
kind_of-tag snapshotting = refl
kind_of-tag expansion = refl

count-tag : (kind : JobKind) → count (tag kind) ≡ count (tag creation)
count-tag creation = refl
count-tag deletion = refl
count-tag snapshotting = refl
count-tag expansion = refl

-- The names of two jobs are equal only if the jobs are of the same kind, which is one of creation,
-- deletion, snapshotting and expansion, and for the same uid.
pub job_name_determines :
    (first second : JobKind) (uid other : String)
    → job_name first uid ≡ job_name second other
    → (first ≡ second) × (uid ≡ other)
job_name_determines first second uid other same =
    let (tags, rests) =
      append_inj (sym (job_name-tag first uid) ∙ same ∙ job_name-tag second other)
        (count-tag first ∙ sym (count-tag second)) in
    let kinds : first ≡ second =
      some-injective _ _ (sym (kind_of-tag first) ∙ ap kind_of tags ∙ kind_of-tag second) in
    (
      kinds,
      append_cancel_left (tail first) uid other
          (rests ∙ ap (λ kind. tail kind <> other) (sym kinds)),
    )
