-- ===== src/Controller/Create/Refusal.antt =====
-- A clone that is refused after its source was claimed.
use subprovisioner.Base.{ℕ, String, ◌<>◌, ◌≡◌, refl, not, ◌&&◌, true, some, [], ◌∷◌}
use subprovisioner.Base.Int.{ℤ, pos, eq_ℤ, ltb_ℤ}
use subprovisioner.Base.Dict
use subprovisioner.Strconv.{parse_int}
use subprovisioner.Kube.Objects.{Pvc}
use subprovisioner.Kube.Errors.{ok}
use subprovisioner.Kube.Calls.{event, History, list_pvcs}
use subprovisioner.Kube.Contract.{failed}
use subprovisioner.Kube.Libraries.{Libraries, IsLawful}
use subprovisioner.Kube.Run.{Environment, run}
use subprovisioner.Common.Config.{key}
use subprovisioner.Common.Pvc.{find_pvc_by_label_selector}
use subprovisioner.Common.Pvc.Accepting.{LetsThrough, claimed_after, run-set_pvc_state_to-then}
use subprovisioner.Controller.Create.{
  Backing, clone_pvc, create_volume_from_volume, check_source_size, too_large,
}

module _ (env : Environment) (lib : Libraries) (law : IsLawful lib) (rounds : ℕ) (image : String)
    (backing : Backing) (dest_pvc source : Pvc) (source_uid : String) where
  -- The history behind the search for the source.
  abbrev pub searched : History
  searched = event (list_pvcs (key "/uid=" <> source_uid)) (ok (source ∷ [])) ∷ []

  -- When the source's capacity annotation says more than the maximum that the request gives, a clone of an idle source fails, and its calls end with the accepted write that puts the
  -- source into the "cloning" state: nothing makes the source idle again.
  pub clone_refusal_keeps_claim :
      (capacity max_capacity : ℤ)
      → env [] (list_pvcs (key "/uid=" <> source_uid)) ≡ ok (source ∷ [])
      → LetsThrough env source "cloning" searched
      → (size : ℤ) → parse_int (Dict.get source.annotations (key "/capacity")) ≡ some size
      → (not (eq_ℤ max_capacity (pos 0)) && ltb_ℤ max_capacity size) ≡ true
      → run env [] (
          create_volume_from_volume lib rounds image backing dest_pvc capacity max_capacity
            source_uid)
        ≡ (
          failed (too_large "source volume capacity" size max_capacity),
          claimed_after env source "cloning" searched,
        )
  unfolding run create_volume_from_volume clone_pvc find_pvc_by_label_selector check_source_size
  clone_refusal_keeps_claim capacity max_capacity found lets size parsed over =
      rw (run, found, run-set_pvc_state_to-then env source "cloning" lib law searched lets)
        (rw (parsed, over) refl)
