-- ===== src/Scripts.antt =====
-- The shell scripts of the clone and the snapshot jobs in pkg/csiplugin/controller/csi.go, as lists of
-- commands on a directory of images. The tools (ln, qemu-img, mv, chmod) are parameters: what is
-- asked of them is in `Behaves`, and each may fail at any time. Sizes and permissions of images are
-- left out.
pub mod Chain
pub mod Ready
pub mod Running
pub mod Replacing
pub mod Clone
pub mod Snapshot
pub mod Paths
pub mod Reliable
pub mod Rerun
use subprovisioner.Base.{
  ℕ, zero, suc, String, ◌≡◌, ◌≢◌, ◌⊎◌, ◌<◌, ◌<>◌, Bool, true, false, Option, none, some, List, [],
  ◌∷◌, if◌then◌else◌,
}

-- The sectors that were written to an image since it was made, and the name of the image under it.
pub record Image : Type 0 where
  pub backing : Option String
  pub layer : ℕ → Option ℕ

-- Which file a path names, and what is in the file. Two paths may name one file.
pub record Directory : Type 0 where
  pub names : String → Option ℕ
  pub images : ℕ → Image
  -- Numbers from here on are free.
  pub next : ℕ
  pub below : (path : String) (file : ℕ) → names path ≡ some file → file < next

-- `ln -f`, `qemu-img create -f qcow2 -b ... -F qcow2`, `mv -f`, `chmod a-w`.
pub data Command : Type 0 where
  link : String → String → Command
  create : String → String → Option String → Command
  move : String → String → Command
  protect : String → Command

-- The jobs mount the backing volume there, and the name of a backing image is relative to it.
unfoldable pub in_backing : String → String
in_backing name = "/var/backing/" <> name

unfoldable pub clone_commands : String → String → String → String → List Command
clone_commands source dest common_ancestor_relative capacity =
    link source (in_backing common_ancestor_relative)
    ∷ create common_ancestor_relative dest (some capacity)
    ∷ create common_ancestor_relative (source <> ".new") none
    ∷ move (source <> ".new") source
    ∷ protect (in_backing common_ancestor_relative)
    ∷ []

unfoldable pub snapshot_commands : String → String → List Command
snapshot_commands pvc snapshot =
    link (in_backing pvc) (in_backing snapshot)
    ∷ create snapshot (in_backing pvc <> ".new") none
    ∷ move (in_backing pvc <> ".new") (in_backing pvc)
    ∷ protect (in_backing snapshot)
    ∷ []

-- An image with nothing written to it yet.
abbrev pub overlay : String → Image
overlay backing = record { backing = some backing; layer = λ _. none }

module _ (before after : Directory) where
  abbrev pub IsSame : Type 0
  IsSame =
      ((path : String) → after.names path ≡ before.names path)
      × ((file : ℕ) → after.images file ≡ before.images file)

  -- The path names `file` now, and every other path what it named before.
  abbrev pub Named : String → ℕ → Type 0
  Named path file =
      (after.names path ≡ some file)
      × ((other : String) → other ≢ path → after.names other ≡ before.names other)

  -- The file of the path, or a new file, was written.
  pub record Written (path : String) : Type 0 where
    pub file : ℕ
    pub which :
        (before.names path ≡ some file) ⊎ ((other : String) → ¬ (before.names other ≡ some file))
    pub named : Named path file
    pub rest : (other : ℕ) → other ≢ file → after.images other ≡ before.images other

  -- What a command that succeeds does.
  abbrev pub Effect : Command → Type 0
  Effect (link old new) =
      (file : ℕ) × (before.names old ≡ some file)
      × Named new file
      × ((other : ℕ) → after.images other ≡ before.images other)
  Effect (create backing path size) =
      (write : Written path) × (after.images write.file ≡ overlay backing)
  Effect (move old new) =
      (file : ℕ) × (before.names old ≡ some file)
      × (after.names new ≡ some file)
      × (old ≢ new → after.names old ≡ none)
      × ((other : String) → other ≢ old → other ≢ new → after.names other ≡ before.names other)
      × ((other : ℕ) → after.images other ≡ before.images other)
  Effect (protect path) = IsSame

  -- What a command that fails, or is cut off, may have done.
  abbrev pub Remains : Command → Type 0
  Remains (create backing path size) = IsSame ⊎ Written path
  Remains (move old new) = IsSame
  Remains (link old new) = IsSame
  Remains (protect path) = IsSame

  abbrev pub Behaves : Command → Bool → Type 0
  Behaves c true = Effect c
  Behaves c false = Remains c

-- A tool says whether it succeeded.
abbrev pub Tools : Type 0
Tools = Command → Directory → Directory × Bool

abbrev pub IsDocumented : Tools → Type 0
IsDocumented exec = (c : Command) (d : Directory) → Behaves d (exec c d).0 c (exec c d).1

-- A run that is cut off before its command number `stop`, if it gets there: with `errexit` the first
-- failure ends it. It tells whether the script ended well.
unfoldable pub run_script : Tools → ℕ → List Command → Directory → Directory × Bool
run_script exec zero commands d = (d, false)
run_script exec (suc stop) [] d = (d, true)
run_script exec (suc stop) (c ∷ commands) d =
    let rest = run_script exec stop commands (exec c d).0 in
    if (exec c d).1 then rest else ((exec c d).0, false)

-- Runs of the script, one after the other.
unfoldable pub run_scripts : Tools → List ℕ → List Command → Directory → Directory
run_scripts exec [] commands d = d
run_scripts exec (stop ∷ stops) commands d =
    run_scripts exec stops commands (run_script exec stop commands d).0
