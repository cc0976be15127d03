-- ===== src/Scripts/Chain.antt =====
-- What an image shows: the sectors written to it, and under them what its backing image shows.
use mathlib.Core.Path.{subst, ap}
use subprovisioner.Base.{ℕ, String, ◌≡◌, ◌∙◌, Option, none, some}
use subprovisioner.Scripts.{Image, Directory, in_backing}

abbrev pub Content : Type 0
Content = ℕ → ℕ

abbrev pick : Option ℕ → ℕ → ℕ
pick none below = below
pick (some written) below = written

abbrev pub lay : (ℕ → Option ℕ) → Content → Content
lay layer below sector = pick (layer sector) (below sector)

-- The content of a file. The paths of the images under it are all as `Ok` says.
pub data Shows (d : Directory) (Ok : String → Type 0) : ℕ → Content → Type 0 where
  base :
      (file : ℕ)
      → (d.images file).backing ≡ none
      → Shows d Ok file (lay (d.images file).layer (λ _. 0))
  over :
      (file under : ℕ) (backing : String) (content : Content)
      → (d.images file).backing ≡ some backing
      → Ok (in_backing backing)
      → d.names (in_backing backing) ≡ some under
      → Shows d Ok under content
      → Shows d Ok file (lay (d.images file).layer content)

-- The content of the file at a path.
abbrev pub PathShows : Directory → String → Content → Type 0
PathShows d path content =
    (file : ℕ) × (d.names path ≡ some file) × Shows d (λ _. Unit {0}) file content

module _ (before after : Directory) (Ok : String → Type 0) where
  -- A change that leaves the files and the paths of an image alone leaves what it shows alone.
  pub Shows-kept :
      ((path : String) → Ok path → after.names path ≡ before.names path)
      → (Kept : ℕ → Type 0) → ((file : ℕ) → Kept file → after.images file ≡ before.images file)
      → ((path : String) → Ok path → (file : ℕ) → before.names path ≡ some file → Kept file)
      → (file : ℕ) (content : Content) → Kept file
      → Shows before Ok file content
      → Shows after Ok file content
  Shows-kept names Kept images chain file content kept (base _ bottom) =
      subst (λ (image : Image). Shows after Ok file (lay image.layer (λ _. 0))) (images file kept)
        (base file (ap (λ (image : Image). image.backing) (images file kept) ∙ bottom))
  Shows-kept names Kept images chain file content kept
        (over _ under backing below here ok named shows) =
      subst (λ (image : Image). Shows after Ok file (lay image.layer below)) (images file kept)
        (over file under backing below
          (ap (λ (image : Image). image.backing) (images file kept) ∙ here) ok
          (names (in_backing backing) ok ∙ named)
          (Shows-kept names Kept images chain under below
            (chain (in_backing backing) ok under named) shows))

pub Shows-weaken :
    (d : Directory) (Ok : String → Type 0) (file : ℕ) (content : Content)
    → Shows d Ok file content
    → Shows d (λ _. Unit {0}) file content
Shows-weaken d Ok file content (base _ bottom) = base file bottom
Shows-weaken d Ok file content (over _ under backing below here ok named shows) =
    over file under backing below here tt named (Shows-weaken d Ok under below shows)
