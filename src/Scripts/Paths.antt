-- ===== src/Scripts/Paths.antt =====
-- The scripts with the paths that the jobs give them.
use text.Mathlib.TextLemmas.{
  append_assoc, append_inj, append_cancel_left, append_cancel_right, append-nil, length-append,
}
use Prim.Native.String.{count}
use mathlib.Core.Bool.{false≢true}
use subprovisioner.Base.{
  ℕ, String, ◌≡◌, ◌≢◌, ◌<>◌, ◌==◌, false, List, refl, sym, ap, ◌∙◌, eq_iff, arith,
}
use subprovisioner.Common.Config.{generate_volume_image_path}
use subprovisioner.Scripts.{
  Directory, in_backing, Tools, IsDocumented, run_script, run_scripts, clone_commands,
  snapshot_commands,
}
use subprovisioner.Scripts.Chain.{Content}
use subprovisioner.Scripts.Ready.{AllUpTo, Ready}
use subprovisioner.Scripts.Replacing.{Good}
use subprovisioner.Scripts.Clone.{OwnOfClone, CloneSeparate, clone_commands_lem}
use subprovisioner.Scripts.Snapshot.{OwnOfSnapshot, SnapshotSeparate, NoPath, snapshot_commands_lem}

not_equal : (one other : String) → (one == other) ≡ false → one ≢ other
not_equal one other differs same = false≢true (sym differs ∙ (eq_iff one other).1 same)

-- Texts that differ behind a common start.
apart_after :
    (start one other rest tail : String)
    → count one ≡ count other
    → (one == other) ≡ false
    → start <> (one <> rest) ≢ start <> (other <> tail)
apart_after start one other rest tail lengths differs same =
    not_equal one other differs (append_inj (append_cancel_left start _ _ same) lengths).0

longer : (text : String) → text <> ".new" ≢ text
longer text same =
    not_equal ".new" "" refl (append_cancel_left text ".new" "" (same ∙ sym (append-nil text)))

in_backing_split :
    (first rest name : String)
    → name ≡ first <> rest
    → in_backing name ≡ "/var/backing/" <> (first <> rest)
unfolding in_backing
in_backing_split first rest name same = ap (λ text. "/var/backing/" <> text) same

volume_path :
    (uid : String)
    → generate_volume_image_path uid ≡ "/var/backing/" <> ("p" <> ("vc-" <> (uid <> ".qcow2")))
unfolding generate_volume_image_path
volume_path uid =
    append_assoc "/var/backing/" "pvc-" (uid <> ".qcow2")
    ∙ ap (λ text. "/var/backing/" <> text) (append_assoc "p" "vc-" (uid <> ".qcow2"))

new_path :
    (uid : String)
    → generate_volume_image_path uid <> ".new"
      ≡ "/var/backing/" <> ("p" <> (("vc-" <> (uid <> ".qcow2")) <> ".new"))
new_path uid =
    let rest = "vc-" <> (uid <> ".qcow2") in
    ap (λ text. text <> ".new") (volume_path uid)
    ∙ append_assoc "/var/backing/" ("p" <> rest) ".new"
    ∙ ap (λ text. "/var/backing/" <> text) (append_assoc "p" rest ".new")

-- The image that is put in a volume's place has no volume's name.
new-volume_path :
    (uid other : String)
    → generate_volume_image_path other ≢ generate_volume_image_path uid <> ".new"
unfolding generate_volume_image_path
new-volume_path uid other same =
    let ends : (other <> ".q") <> "cow2" ≡ (uid <> ".qcow2") <> ".new" =
      append_assoc other ".q" "cow2"
      ∙ append_cancel_left "/var/backing/pvc-" _ _
          (same ∙ append_assoc "/var/backing/pvc-" (uid <> ".qcow2") ".new") in
    let lengths : count (other <> ".q") ≡ count (uid <> ".qcow2") = omega (
      arith,
      ap count ends,
      length-append (other <> ".q") "cow2",
      length-append (uid <> ".qcow2") ".new",
    ) in
    not_equal "cow2" ".new" refl (append_inj ends lengths).1

volume_path-differs :
    (uid other : String)
    → uid ≢ other
    → generate_volume_image_path other ≢ generate_volume_image_path uid
unfolding generate_volume_image_path
volume_path-differs uid other differs same =
    differs (
      sym
        (append_cancel_right other uid ".qcow2" (append_cancel_left "/var/backing/pvc-" _ _ same)))

abbrev pub common_ancestor : String → String → String
common_ancestor uid other = "cloned-" <> (uid <> ("-to-" <> (other <> ".qcow2")))

ancestor_path :
    (uid other : String)
    → in_backing (common_ancestor uid other)
      ≡ "/var/backing/" <> ("c" <> ("loned-" <> (uid <> ("-to-" <> (other <> ".qcow2")))))
ancestor_path uid other = in_backing_split "c" _ _ (append_assoc "c" "loned-" _)

pub clone-Separate :
    (uid other : String)
    → uid ≢ other
    → CloneSeparate
        (generate_volume_image_path uid)
        (generate_volume_image_path other)
        (common_ancestor uid other)
clone-Separate uid other differs = record {
  source_ancestor = λ e.
      apart_after "/var/backing/" "p" "c" _ _ refl refl
        (sym (volume_path uid) ∙ e ∙ ancestor_path uid other);
  new_source = longer (generate_volume_image_path uid);
  new_ancestor = λ e.
      apart_after "/var/backing/" "p" "c" _ _ refl refl
        (sym (new_path uid) ∙ e ∙ ancestor_path uid other);
  dest_source = volume_path-differs uid other differs;
  dest_ancestor = λ e.
      apart_after "/var/backing/" "p" "c" _ _ refl refl
        (sym (volume_path other) ∙ e ∙ ancestor_path uid other);
  dest_new = new-volume_path uid other;
}

-- The arguments of a snapshot's job.
abbrev pub volume_image : String → String
volume_image uid = "pvc-" <> (uid <> ".qcow2")

abbrev pub snapshot_image : String → String
snapshot_image uid = "snapshot-" <> (uid <> ".qcow2")

image_path :
    (uid : String)
    → in_backing (volume_image uid) ≡ "/var/backing/" <> ("p" <> ("vc-" <> (uid <> ".qcow2")))
image_path uid = in_backing_split "p" _ _ (append_assoc "p" "vc-" _)

new_image_path :
    (uid : String)
    → in_backing (volume_image uid) <> ".new"
      ≡ "/var/backing/" <> ("p" <> (("vc-" <> (uid <> ".qcow2")) <> ".new"))
new_image_path uid =
    let rest = "vc-" <> (uid <> ".qcow2") in
    ap (λ text. text <> ".new") (image_path uid)
    ∙ append_assoc "/var/backing/" ("p" <> rest) ".new"
    ∙ ap (λ text. "/var/backing/" <> text) (append_assoc "p" rest ".new")

snapshot_path :
    (uid : String)
    → in_backing (snapshot_image uid)
      ≡ "/var/backing/" <> ("s" <> ("napshot-" <> (uid <> ".qcow2")))
snapshot_path uid = in_backing_split "s" _ _ (append_assoc "s" "napshot-" _)

pub snapshot-Separate :
    (uid snapshot_uid : String) → SnapshotSeparate (volume_image uid) (snapshot_image snapshot_uid)
snapshot-Separate uid snapshot_uid = record {
  source_ancestor = λ e.
      apart_after "/var/backing/" "p" "s" _ _ refl refl
        (sym (image_path uid) ∙ e ∙ snapshot_path snapshot_uid);
  new_source = longer (in_backing (volume_image uid));
  new_ancestor = λ e.
      apart_after "/var/backing/" "p" "s" _ _ refl refl
        (sym (new_image_path uid) ∙ e ∙ snapshot_path snapshot_uid);
}

module _ (exec : Tools) (documented : IsDocumented exec) (content : Content) where
  -- The clone script, with the paths that it is given for two volumes of different uids, from a directory
  -- where the source's image shows a content without the help of the paths that the script changes,
  -- and where what lies at the script's own paths lies nowhere else: after any runs that were cut
  -- off before the `mv`, a last run, cut off anywhere or not, leaves the source with its content,
  -- whichever commands failed; and if the last run ended well, the destination and the common
  -- ancestor show that content too.
  pub clone_keeps_content :
      (uid other capacity : String)
      → uid ≢ other
      → (stops : List ℕ) (stop : ℕ) (d : Directory) → AllUpTo 3 stops
      → Ready
          (generate_volume_image_path uid)
          (common_ancestor uid other)
          (OwnOfClone (generate_volume_image_path uid) (generate_volume_image_path other))
          content
          d
      → Good
          (generate_volume_image_path uid)
          (common_ancestor uid other)
          (OwnOfClone (generate_volume_image_path uid) (generate_volume_image_path other))
          content
          (generate_volume_image_path uid <> ".new")
          (λ path. path ≡ generate_volume_image_path other)
          (run_script exec stop
            (clone_commands
              (generate_volume_image_path uid)
              (generate_volume_image_path other)
              (common_ancestor uid other)
              capacity)
            (run_scripts exec stops
              (clone_commands
                (generate_volume_image_path uid)
                (generate_volume_image_path other)
                (common_ancestor uid other)
                capacity)
              d))
  clone_keeps_content uid other capacity differs =
      clone_commands_lem exec documented (generate_volume_image_path uid)
        (generate_volume_image_path other) (common_ancestor uid other) capacity
        (clone-Separate uid other differs) content

  -- The snapshot script, with the paths that it is given for a volume and a snapshot, from a directory
  -- where the volume's image shows a content without the help of the paths that the script changes,
  -- and where what lies at the script's own path lies nowhere else: after any runs that were cut
  -- off before the `mv`, a last run, cut off anywhere or not, leaves the volume with its content,
  -- whichever commands failed; and if the last run ended well, the snapshot shows that content too.
  pub snapshot_keeps_content :
      (uid snapshot_uid : String) (stops : List ℕ) (stop : ℕ) (d : Directory)
      → AllUpTo 2 stops
      → Ready
          (in_backing (volume_image uid))
          (snapshot_image snapshot_uid)
          (OwnOfSnapshot (volume_image uid))
          content
          d
      → Good
          (in_backing (volume_image uid))
          (snapshot_image snapshot_uid)
          (OwnOfSnapshot (volume_image uid))
          content
          (in_backing (volume_image uid) <> ".new")
          NoPath
          (run_script exec stop
            (snapshot_commands (volume_image uid) (snapshot_image snapshot_uid))
            (run_scripts exec stops
              (snapshot_commands (volume_image uid) (snapshot_image snapshot_uid))
              d))
  snapshot_keeps_content uid snapshot_uid =
      snapshot_commands_lem exec documented (volume_image uid) (snapshot_image snapshot_uid)
        (snapshot-Separate uid snapshot_uid) content
