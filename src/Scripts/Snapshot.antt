-- ===== src/Scripts/Snapshot.antt =====
-- The snapshot script, behind any number of runs that were cut off before the `mv`.
use subprovisioner.Base.{
  ℕ, zero, suc, String, ◌≡◌, ◌≢◌, ◌<>◌, ◌≤◌, arith, refl, sym, ◌∙◌, none, List,
}
use subprovisioner.Scripts.{
  Directory, in_backing, Tools, IsDocumented, run_script, run_scripts, snapshot_commands,
}
use subprovisioner.Scripts.Chain.{Content}
use subprovisioner.Scripts.Ready.{Ready, IsSeparate, MildBefore, AllUpTo, attempts-Ready}
use subprovisioner.Scripts.Replacing.Linking.{linked-Good}
use subprovisioner.Scripts.Replacing.{Good, create_new-Good}

abbrev pub OwnOfSnapshot : String → String → Type 0
OwnOfSnapshot pvc path = path ≡ in_backing pvc <> ".new"

-- The paths of a snapshot are three.
pub record SnapshotSeparate (pvc snapshot : String) : Type 0 where
  pub source_ancestor : in_backing pvc ≢ in_backing snapshot
  pub new_source : in_backing pvc <> ".new" ≢ in_backing pvc
  pub new_ancestor : in_backing pvc <> ".new" ≢ in_backing snapshot

snapshot-IsSeparate :
    (pvc snapshot : String)
    → SnapshotSeparate pvc snapshot
    → IsSeparate (in_backing pvc) snapshot (OwnOfSnapshot pvc)
snapshot-IsSeparate pvc snapshot s = record {
  source_ancestor = s.source_ancestor;
  own_source = λ path own e. s.new_source (sym own ∙ e);
  own_ancestor = λ path own e. s.new_ancestor (sym own ∙ e);
}

abbrev pub NoPath : String → Type 0
NoPath path = ⊥

module _ (exec : Tools) (documented : IsDocumented exec) (pvc snapshot : String)
    (separate : SnapshotSeparate pvc snapshot) (content : Content) where
  apart : IsSeparate (in_backing pvc) snapshot (OwnOfSnapshot pvc)
  apart = snapshot-IsSeparate pvc snapshot separate

  snapshot-MildBefore :
      (stop : ℕ)
      → stop ≤ 2
      → MildBefore
          (in_backing pvc)
          snapshot
          (OwnOfSnapshot pvc)
          apart
          content
          exec
          documented
          stop
          (snapshot_commands pvc snapshot)
  unfolding snapshot_commands
  snapshot-MildBefore zero _ = tt
  snapshot-MildBefore (suc zero) _ = ((refl, refl), tt)
  snapshot-MildBefore (suc (suc zero)) _ = ((refl, refl), ((refl, refl), tt))
  snapshot-MildBefore (suc (suc (suc stop))) h = absurd (omega arith)

  -- Runs that were cut off before the `mv`, and a last run.
  pub snapshot_commands_lem :
      (stops : List ℕ) (stop : ℕ) (d : Directory)
      → AllUpTo 2 stops
      → Ready (in_backing pvc) snapshot (OwnOfSnapshot pvc) content d
      → Good
          (in_backing pvc)
          snapshot
          (OwnOfSnapshot pvc)
          content
          (in_backing pvc <> ".new")
          NoPath
          (run_script exec stop
            (snapshot_commands pvc snapshot)
            (run_scripts exec stops (snapshot_commands pvc snapshot) d))
  unfolding snapshot_commands
  snapshot_commands_lem stops stop d early ready =
      linked-Good exec documented (in_backing pvc) snapshot (OwnOfSnapshot pvc) apart content
        (in_backing pvc <> ".new") NoPath stop _ _
        (attempts-Ready (in_backing pvc) snapshot (OwnOfSnapshot pvc) apart content exec documented
          2 _ snapshot-MildBefore stops early d ready)
        λ stop e ready linked.
          create_new-Good (in_backing pvc) snapshot (OwnOfSnapshot pvc) content
            (in_backing pvc <> ".new") NoPath exec documented apart refl
            (λ path never. absurd never) stop none e
            (record { ready = ready; linked = linked; laid = λ path never. absurd never })
