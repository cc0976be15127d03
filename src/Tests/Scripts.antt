-- ===== src/Tests/Scripts.antt =====
-- The two scripts on a directory with one image.
use mathlib.Core.Bool.{false≢true}
use mathlib.Core.Option.{none-ne-some}
use subprovisioner.Base.{
  String, ◌≡◌, ◌≢◌, ◌<>◌, refl, sym, arith, true, false, inl, inr, ap, ◌∙◌, [], ◌∷◌, ◌==◌, eq_iff,
}
use subprovisioner.Scripts.{in_backing, run_script, run_scripts, clone_commands, snapshot_commands}
use subprovisioner.Scripts.Chain.{Content, base, PathShows, lay}
use subprovisioner.Scripts.Ready.{Ready}
use subprovisioner.Scripts.Replacing.{Good}
use subprovisioner.Scripts.Clone.{OwnOfClone}
use subprovisioner.Scripts.Snapshot.{OwnOfSnapshot, NoPath}
use subprovisioner.Common.Config.{generate_volume_image_path}
use subprovisioner.Scripts.Paths.{clone_keeps_content, snapshot_keeps_content}
use subprovisioner.Scripts.Reliable.{scripts_end}
use subprovisioner.Scripts.Rerun.{clone_rerun_loses, snapshot_rerun_loses}
use subprovisioner.Tests.Directories.{tools, tools-IsDocumented, tools-IsReliable, one_image}

differs : (one other : String) → (one == other) ≡ false → one ≢ other
differs one other e same = false≢true (sym e ∙ (eq_iff one other).1 same)

abbrev written : Content
written = lay (one_image.images 0).layer (λ _. 0)

abbrev the_source : String
the_source = "/var/backing/pvc-1234.qcow2"

abbrev the_dest : String
the_dest = "/var/backing/pvc-5678.qcow2"

abbrev the_ancestor : String
the_ancestor = "cloned-1234-to-5678.qcow2"

one_image-Ready : Ready the_source the_ancestor (OwnOfClone the_source the_dest) written one_image
one_image-Ready = record {
  file = 0;
  there = refl;
  shows = base 0 refl;
  alone = λ path own file at other _ _. elim own [
    | inl dest ↦ none-ne-some file (sym (ap one_image.names dest) ∙ at)
    | inr new ↦ none-ne-some file (sym (ap one_image.names new) ∙ at)
  ];
}

-- Two runs that are cut off, before the second command and before the `mv`, and a whole one.
clone_keeps_content_example :
    Good the_source the_ancestor
      (OwnOfClone the_source the_dest)
      written
      (the_source <> ".new")
      (λ path. path ≡ the_dest)
      (run_script tools 9 (clone_commands the_source the_dest the_ancestor "8192") (
        run_scripts tools
          (1 ∷ 3 ∷ [])
          (clone_commands the_source the_dest the_ancestor "8192")
          one_image))
unfolding generate_volume_image_path
clone_keeps_content_example =
    clone_keeps_content tools tools-IsDocumented written "1234" "5678" "8192" (differs _ _ refl)
      (1 ∷ 3 ∷ []) 9 one_image (omega arith) one_image-Ready

one_image-snapshot_Ready :
    Ready
      (in_backing "pvc-1234.qcow2")
      "snapshot-5678.qcow2"
      (OwnOfSnapshot "pvc-1234.qcow2")
      written
      one_image
unfolding in_backing
one_image-snapshot_Ready = record {
  file = 0;
  there = refl;
  shows = base 0 refl;
  alone = λ path own file at other _ _. none-ne-some file (sym (ap one_image.names own) ∙ at);
}

snapshot_keeps_content_example :
    Good
      (in_backing "pvc-1234.qcow2")
      "snapshot-5678.qcow2"
      (OwnOfSnapshot "pvc-1234.qcow2")
      written
      (in_backing "pvc-1234.qcow2" <> ".new")
      NoPath
      (run_script tools 9 (snapshot_commands "pvc-1234.qcow2" "snapshot-5678.qcow2") (
        run_scripts tools
          (1 ∷ 2 ∷ [])
          (snapshot_commands "pvc-1234.qcow2" "snapshot-5678.qcow2")
          one_image))
snapshot_keeps_content_example =
    snapshot_keeps_content tools tools-IsDocumented written "1234" "5678" (1 ∷ 2 ∷ []) 9 one_image
      (omega arith) one_image-snapshot_Ready

clone_rerun_loses_example :
    ¬ PathShows
      (run_scripts tools
        (4 ∷ 1 ∷ [])
        (clone_commands the_source the_dest the_ancestor "8192")
        one_image)
      the_source
      written
clone_rerun_loses_example =
    clone_rerun_loses tools tools-IsDocumented tools-IsReliable the_source the_dest the_ancestor
      "8192" one_image (0, refl) written

snapshot_rerun_loses_example :
    ¬ PathShows
      (run_scripts tools
        (3 ∷ 1 ∷ [])
        (snapshot_commands "pvc-1234.qcow2" "snapshot-5678.qcow2")
        one_image)
      (in_backing "pvc-1234.qcow2")
      written
unfolding in_backing
snapshot_rerun_loses_example =
    snapshot_rerun_loses tools tools-IsDocumented tools-IsReliable "pvc-1234.qcow2"
      "snapshot-5678.qcow2" one_image (0, refl) written

scripts_end_example :
    ((run_script tools 6 (clone_commands the_source the_dest the_ancestor "8192") one_image).1
      ≡ true)
    × ((run_script tools 5 (snapshot_commands "pvc-1234.qcow2" "snapshot-5678.qcow2") one_image).1
        ≡ true)
unfolding in_backing
scripts_end_example =
    scripts_end tools tools-IsDocumented tools-IsReliable the_source the_dest the_ancestor "8192"
      "pvc-1234.qcow2" "snapshot-5678.qcow2" one_image (differs _ _ refl) (differs _ _ refl)
      (differs _ _ refl) (differs _ _ refl) (0, refl) (0, refl)
