-- ===== src/Scripts/Reliable.antt =====
-- Tools that succeed whenever what they need is there, and scripts with them.
use mathlib.Core.Path.{ap}
use subprovisioner.Base.{
  ℕ, zero, suc, String, ◌≡◌, ◌≢◌, ◌<>◌, refl, sym, ◌∙◌, Bool, true, false, Option, none, some, List,
  [], ◌∷◌, inl, inr,
}
use subprovisioner.Scripts.{
  Directory, Command, Effect, link, create, move, protect, in_backing, Tools, IsDocumented,
  run_script, clone_commands, snapshot_commands,
}
use subprovisioner.Scripts.Ready.{same_or_not}
use subprovisioner.Scripts.Running.{success_Effect}

-- The tools succeed whenever what they need is there.
abbrev pub Possible : Directory → Command → Type 0
Possible d (link old new) = (file : ℕ) × (d.names old ≡ some file)
Possible d (create backing path size) = (file : ℕ) × (d.names (in_backing backing) ≡ some file)
Possible d (move old new) = (file : ℕ) × (d.names old ≡ some file)
Possible d (protect path) = (file : ℕ) × (d.names path ≡ some file)

abbrev pub IsReliable : Tools → Type 0
IsReliable exec = (c : Command) (d : Directory) → Possible d c → (exec c d).1 ≡ true

pub run_script-cut :
    (exec : Tools) (commands : List Command) (d : Directory)
    → run_script exec zero commands d ≡ (d, false)
unfolding run_script
run_script-cut exec commands d = refl

run_script-nil :
    (exec : Tools) (stop : ℕ) (d : Directory) → run_script exec (suc stop) [] d ≡ (d, true)
unfolding run_script
run_script-nil exec stop d = refl

pub run_script-on :
    (exec : Tools) (stop : ℕ) (c : Command) (commands : List Command) (d : Directory)
    → (exec c d).1 ≡ true
    → run_script exec (suc stop) (c ∷ commands) d ≡ run_script exec stop commands (exec c d).0
unfolding run_script
run_script-on exec stop c commands d success = rw success refl

abbrev pub Exists : String → Directory → Type 0
Exists path d = (file : ℕ) × (d.names path ≡ some file)

module _ (exec : Tools) (documented : IsDocumented exec) (reliable : IsReliable exec) where
  pub did : (c : Command) (d : Directory) → Possible d c → Effect d (exec c d).0 c
  did c d possible = success_Effect exec documented c d (reliable c d possible)

  pub linked-Exists :
      (source ancestor : String) (d : Directory)
      → Exists source d
      → Exists (in_backing ancestor) (exec (link source (in_backing ancestor)) d).0
  linked-Exists source ancestor d exists =
      let (file, from, (here, names), images) = did (link source (in_backing ancestor)) d exists in
      (file, here)

  pub created-Exists :
      (ancestor path : String) (size : Option String) (d : Directory)
      → Exists (in_backing ancestor) d
      → Exists (in_backing ancestor) (exec (create ancestor path size) d).0
  created-Exists ancestor path size d (file, at) =
      let (write, image) = did (create ancestor path size) d (file, at) in
      elim (same_or_not (in_backing ancestor) path) [
        | inl same ↦
            (write.file, ap (exec (create ancestor path size) d).0.names same ∙ write.named.0)
        | inr differs ↦ (file, write.named.1 (in_backing ancestor) differs ∙ at)
      ]

  module _ (source ancestor : String) (apart : source ≢ in_backing ancestor) where
    -- The end of a script, from the overlay that is to replace the source on.
    replacing_ends :
        (new : String) (d : Directory)
        → new ≢ in_backing ancestor
        → Exists (in_backing ancestor) d
        → (run_script exec 4
            (create ancestor new none ∷ move new source ∷ protect (in_backing ancestor) ∷ [])
            d).1
          ≡ true
    replacing_ends new d new_apart there =
        let make = create ancestor new none in
        let made = (exec make d).0 in
        let put = move new source in
        let (write, image) = did make d there in
        let here : Exists new made = (write.file, write.named.0) in
        let replaced = (exec put made).0 in
        let (moved, from, at, gone, names, images) = did put made here in
        let (file, kept) = created-Exists ancestor new none d there in
        let ancestor_there : Exists (in_backing ancestor) replaced = (
          file,
          names (in_backing ancestor) (λ e. new_apart (sym e)) (λ e. apart (sym e)) ∙ kept,
        ) in
        ap (λ (r : Directory × Bool). r.1)
          (run_script-on exec 3 make _ d (reliable make d there)
            ∙ run_script-on exec 2 put _ made (reliable put made here)
            ∙ run_script-on exec 1 (protect (in_backing ancestor)) [] replaced
                (reliable (protect (in_backing ancestor)) replaced ancestor_there)
            ∙ run_script-nil exec 0 (exec (protect (in_backing ancestor)) replaced).0)

  -- With such tools, both scripts end well on a directory with the source, if the paths that they
  -- work with differ.
  pub scripts_end :
      (source dest ancestor capacity pvc snapshot : String) (d : Directory)
      → source ≢ in_backing ancestor
      → source <> ".new" ≢ in_backing ancestor
      → in_backing pvc ≢ in_backing snapshot
      → in_backing pvc <> ".new" ≢ in_backing snapshot
      → Exists source d
      → Exists (in_backing pvc) d
      → ((run_script exec 6 (clone_commands source dest ancestor capacity) d).1 ≡ true)
        × ((run_script exec 5 (snapshot_commands pvc snapshot) d).1 ≡ true)
  unfolding clone_commands snapshot_commands
  scripts_end source dest ancestor capacity pvc snapshot d apart new_apart pvc_apart new_pvc_apart
        there pvc_there =
      let success : Directory × Bool → Bool = λ r. r.1 in
      let first = link source (in_backing ancestor) in
      let linked = linked-Exists source ancestor d there in
      let make = create ancestor dest (some capacity) in
      let second = link (in_backing pvc) (in_backing snapshot) in
      (
        ap success (
              run_script-on exec 5 first _ d (reliable first d there)
              ∙ run_script-on exec 4 make _ (exec first d).0
                  (reliable make (exec first d).0 linked))
            ∙ replacing_ends source ancestor apart (source <> ".new") _ new_apart
                (created-Exists ancestor dest (some capacity) (exec first d).0 linked),
        ap success (run_script-on exec 4 second _ d (reliable second d pvc_there))
            ∙ replacing_ends (in_backing pvc) snapshot pvc_apart (in_backing pvc <> ".new") _
                new_pvc_apart (linked-Exists (in_backing pvc) snapshot d pvc_there),
      )
