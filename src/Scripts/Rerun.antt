-- ===== src/Scripts/Rerun.antt =====
-- A script that is run again after its `mv`.
use mathlib.Core.Path.{subst, ap}
use mathlib.Core.Option.{some-injective, none-ne-some}
use subprovisioner.Base.{
  ℕ, zero, String, ◌≡◌, ◌<>◌, sym, ◌∙◌, Bool, false, none, some, List, [], ◌∷◌, inl, inr,
}
use subprovisioner.Scripts.{
  Image, Directory, Command, link, create, move, in_backing, Tools, IsDocumented, run_script,
  run_scripts, clone_commands, snapshot_commands,
}
use subprovisioner.Scripts.Chain.{Content, Shows, base, over, PathShows}
use subprovisioner.Scripts.Reliable.{
  IsReliable, Exists, did, run_script-cut, run_script-on, linked-Exists, created-Exists,
}
use subprovisioner.Scripts.Ready.{same_or_not}

-- An image that lies on itself shows nothing.
circular-Shows :
    (d : Directory) (Ok : String → Type 0) (file : ℕ) (ancestor : String)
    → (d.images file).backing ≡ some ancestor
    → d.names (in_backing ancestor) ≡ some file
    → (at : ℕ) (content : Content) → at ≡ file
    → ¬ Shows d Ok at content
circular-Shows d Ok file ancestor lies names at content same (base _ bottom) =
    none-ne-some _ (sym bottom ∙ ap (λ f. (d.images f).backing) same ∙ lies)
circular-Shows d Ok file ancestor lies names at content same
      (over _ under backing below here ok named shows) =
    let is_ancestor : backing ≡ ancestor =
      some-injective _ _ (sym here ∙ ap (λ f. (d.images f).backing) same ∙ lies) in
    let under_file : under ≡ file =
      some-injective _ _ (sym named ∙ ap (λ b. d.names (in_backing b)) is_ancestor ∙ names) in
    circular-Shows d Ok file ancestor lies names under below under_file shows

module _ (exec : Tools) (documented : IsDocumented exec) (reliable : IsReliable exec) where
  -- The source's file is an overlay on the ancestor.
  abbrev Lies : String → String → Directory → Type 0
  Lies source ancestor d =
      (file : ℕ) × (d.names source ≡ some file) × ((d.images file).backing ≡ some ancestor)

  -- The `ln` of a second run.
  link_loses :
      (source ancestor : String) (commands : List Command) (d : Directory)
      → Lies source ancestor d
      → (content : Content)
      → ¬ PathShows
          (run_script exec 1 (link source (in_backing ancestor) ∷ commands) d).0
          source
          content
  link_loses source ancestor commands d (file, at, lies) content shown =
      let c = link source (in_backing ancestor) in
      let (linked, from, (here, names), images) = did exec documented reliable c d (file, at) in
      let e = (exec c d).0 in
      let end : run_script exec 1 (c ∷ commands) d ≡ (e, false) =
        run_script-on exec zero c commands d (reliable c d (file, at))
        ∙ run_script-cut exec commands e in
      let same : linked ≡ file = some-injective _ _ (sym from ∙ at) in
      let on_itself : (e.images linked).backing ≡ some ancestor =
        ap (λ (image : Image). image.backing) (images linked)
        ∙ ap (λ f. (d.images f).backing) same
        ∙ lies in
      let (shown_file, there, shows) =
        subst (λ (r : Directory × Bool). PathShows r.0 source content) end shown in
      let source_linked : e.names source ≡ some linked =
        elim (same_or_not source (in_backing ancestor)) [
          | inl same_path ↦ ap e.names same_path ∙ here
          | inr differs ↦ names source differs ∙ from
        ] in
      circular-Shows e (λ _. Unit {0}) linked ancestor on_itself here shown_file content
        (some-injective _ _ (sym there ∙ source_linked)) shows

  -- The last two commands of a run that is cut off after its `mv`.
  replaced-Lies :
      (source ancestor new : String) (commands : List Command) (d : Directory)
      → Exists (in_backing ancestor) d
      → Lies source ancestor
          (run_script exec 2 (create ancestor new none ∷ move new source ∷ commands) d).0
  replaced-Lies source ancestor new commands d exists =
      let make = create ancestor new none in
      let (write, image) = did exec documented reliable make d exists in
      let made = (exec make d).0 in
      let put = move new source in
      let here : Exists new made = (write.file, write.named.0) in
      let (moved, from, there, gone, names, images) = did exec documented reliable put made here in
      let end : run_script exec 2 (make ∷ put ∷ commands) d ≡ ((exec put made).0, false) =
        run_script-on exec 1 make (put ∷ commands) d (reliable make d exists)
        ∙ run_script-on exec zero put commands made (reliable put made here)
        ∙ run_script-cut exec commands (exec put made).0 in
      let same : moved ≡ write.file = some-injective _ _ (sym from ∙ write.named.0) in
      subst (λ (r : Directory × Bool). Lies source ancestor r.0) (sym end)
        (
          moved,
          there,
          ap (λ (image : Image). image.backing) (images moved)
              ∙ ap (λ f. (made.images f).backing) same
              ∙ ap (λ (image : Image). image.backing) image,
        )

  -- The snapshot script with tools that succeed whenever what they need is there, on a directory with
  -- the source, cut off after its `mv` and started again: after the `ln` of the second run the source
  -- shows nothing at all, whatever it showed before.
  pub snapshot_rerun_loses :
      (pvc snapshot : String) (d : Directory)
      → Exists (in_backing pvc) d
      → (content : Content)
      → ¬ PathShows
          (run_scripts exec (3 ∷ 1 ∷ []) (snapshot_commands pvc snapshot) d)
          (in_backing pvc)
          content
  unfolding run_scripts snapshot_commands
  snapshot_rerun_loses pvc snapshot d exists content =
      let c = link (in_backing pvc) (in_backing snapshot) in
      link_loses (in_backing pvc) snapshot _ _
        (subst (λ (r : Directory × Bool). Lies (in_backing pvc) snapshot r.0)
          (sym (run_script-on exec 2 c _ d (reliable c d exists)))
          (replaced-Lies (in_backing pvc) snapshot (in_backing pvc <> ".new") _ (exec c d).0
            (linked-Exists exec documented reliable (in_backing pvc) snapshot d exists)))
        content

  -- The clone script with tools that succeed whenever what they need is there, on a directory with
  -- the source, cut off after its `mv` and started again: after the `ln` of the second run the source
  -- shows nothing at all, whatever it showed before.
  pub clone_rerun_loses :
      (source dest ancestor capacity : String) (d : Directory)
      → Exists source d
      → (content : Content)
      → ¬ PathShows
          (run_scripts exec (4 ∷ 1 ∷ []) (clone_commands source dest ancestor capacity) d)
          source
          content
  unfolding run_scripts clone_commands
  clone_rerun_loses source dest ancestor capacity d exists content =
      let c = link source (in_backing ancestor) in
      let linked = linked-Exists exec documented reliable source ancestor d exists in
      let make = create ancestor dest (some capacity) in
      link_loses source ancestor _ _
        (subst (λ (r : Directory × Bool). Lies source ancestor r.0)
          (sym (
            run_script-on exec 3 c _ d (reliable c d exists)
            ∙ run_script-on exec 2 make _ (exec c d).0 (reliable make (exec c d).0 linked)))
          (replaced-Lies source ancestor (source <> ".new") _ (exec make (exec c d).0).0 (
            created-Exists exec documented reliable ancestor dest (some capacity) (exec c d).0
              linked)))
        content
