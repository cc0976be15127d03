-- ===== src/Node/Stage/Repeating.antt =====
-- The request to unstage a volume once more, as after a lost answer.
use subprovisioner.Base.{ℕ, String, ◌≡◌, refl, [], ◌∷◌}
use subprovisioner.Kube.Errors.{ok, is_not_found, plain}
use subprovisioner.Kube.Calls.{event, list_replica_sets}
use subprovisioner.Kube.Prog.{catch}
use subprovisioner.Kube.Contract.{failed}
use subprovisioner.Kube.Run.{Environment, run}
use subprovisioner.Kube.Libraries.{Libraries}
use subprovisioner.Common.ReplicaSet.{find_replica_set_by_label_selector}
use subprovisioner.Node.Stage.{
  NodeUnstageVolumeRequest, staging_selector, delete_staging, node_unstage_volume,
}

-- When the search finds no replica set, as after an unstaging whose answer was lost, unstaging fails
-- after this one call, with an error that is not the server's "not found": neither the path nor
-- the claim is touched, whatever the other answers are.
pub node_unstage_volume_retry :
    (env : Environment) (lib : Libraries) (rounds : ℕ) (node : String)
    (req : NodeUnstageVolumeRequest)
    → env [] (list_replica_sets (staging_selector node req.volume_id)) ≡ ok []
    → run env [] (node_unstage_volume lib rounds node req) ≡ (
      failed (plain "no objects found"),
      event (list_replica_sets (staging_selector node req.volume_id)) (ok []) ∷ [],
    )
unfolding run node_unstage_volume find_replica_set_by_label_selector delete_staging catch
    is_not_found
node_unstage_volume_retry env lib rounds node req nothing = rw (run, nothing) refl
