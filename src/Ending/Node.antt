-- ===== src/Ending/Node.antt =====
-- The node's requests come to an end.
use subprovisioner.Base.{ℕ, String, ◌<>◌}
use subprovisioner.Base.Dict
use subprovisioner.Kube.Objects
use subprovisioner.Kube.Errors.{Result, ok, err, is_not_found, is_not_exist}
use subprovisioner.Kube.Calls.{symlink}
use subprovisioner.Kube.Prog.{call, lift}
use subprovisioner.Kube.Run.{Environment}
use subprovisioner.Kube.Libraries.{Libraries, IsLawful}
use subprovisioner.Kube.Ends.{
  Ends, Ends-ret, Ends-fail, Ends-call, Ends-if, Ends-lift, Ends-bind, Ends-catch,
}
use subprovisioner.Common.Config.{key}
use subprovisioner.Common.Pvc.Ending.{Ends-find_pvc, Ends-stage, Ends-unstage}
use subprovisioner.Common.ReplicaSet.Ending.{
  PromptReplicaSets, Ends-find_replica_set, Ends-delete_replica_set,
}
use subprovisioner.Common.Util.Ending.{PromptFiles, Ends-create-wait}
use subprovisioner.Node.Stage.{
  NodeStageVolumeRequest, NodeUnstageVolumeRequest, node_stage_volume, remove_if_exists,
  delete_staging, node_unstage_volume, staging_selector, staging_replica_set,
}
use subprovisioner.Node.Publish.{NodePublishVolumeRequest, make_readonly, node_publish_volume}

module _ (env : Environment) where
  pub Ends-remove : (path : String) → Ends env (remove_if_exists path)
  unfolding remove_if_exists
  Ends-remove path = Ends-call env _ _ (elim [
    | ok _ ↦ Ends-ret env tt
    | err e ↦ Ends-if env (is_not_exist e) _ _ (Ends-ret env tt) (Ends-fail env (Unit {0}) e)
  ])

  Ends-make_readonly : (path : String) → Ends env (make_readonly path)
  unfolding make_readonly
  Ends-make_readonly path =
      Ends-call env _ _
        (elim [ ok mode ↦ Ends-call env _ _ (Ends-lift env) | err e ↦ Ends-fail env (Unit {0}) e ])

  pub Ends-publish : (req : NodePublishVolumeRequest) → Ends env (node_publish_volume req)
  unfolding node_publish_volume
  Ends-publish req = Ends-bind env _ _ (Ends-remove req.target_path) λ _.
      Ends-bind env (call (symlink req.staging_target_path req.target_path) lift) _
        (Ends-call env _ _ (Ends-lift env))
        λ _. Ends-if env req.readonly _ _ (Ends-make_readonly req.target_path) (Ends-ret env tt)

  module _ (lib : Libraries) (law : IsLawful lib) (rounds : ℕ) where
    pub Ends-node_stage_volume :
        PromptFiles env rounds
        → (image node_name : String) (req : NodeStageVolumeRequest)
        → Ends env (node_stage_volume lib rounds image node_name req)
    unfolding node_stage_volume
    Ends-node_stage_volume prompt image node_name req =
        Ends-if env req.volume_capability.block _ _
          (Ends-bind env _ _
            (Ends-stage env lib law (Dict.get req.volume_context "pvcName")
              (Dict.get req.volume_context "pvcNamespace") node_name)
            λ _.
              Ends-create-wait env rounds prompt
                (staging_replica_set lib rounds image node_name req) req.staging_target_path)
          (Ends-fail env (Unit {0}) _)

    module _ (prompt : PromptReplicaSets env rounds) (node_name : String) where
      Ends-delete_staging :
          (found : Result Objects.ReplicaSet) → Ends env (delete_staging lib rounds node_name found)
      unfolding delete_staging
      Ends-delete_staging (ok found) =
          Ends-delete_replica_set env rounds prompt found.name found.namespace
      Ends-delete_staging (err e) =
          Ends-if env (is_not_found e) _ _ (Ends-ret env tt) (Ends-fail env (Unit {0}) e)

      pub Ends-node_unstage_volume :
          (req : NodeUnstageVolumeRequest) → Ends env (node_unstage_volume lib rounds node_name req)
      unfolding node_unstage_volume
      Ends-node_unstage_volume req =
          Ends-bind env _ _
            (Ends-catch env _
              (Ends-find_replica_set env (staging_selector node_name req.volume_id)))
            λ found. Ends-bind env _ _ (Ends-delete_staging found) λ _.
              Ends-bind env _ _ (Ends-remove req.staging_target_path) λ _.
                Ends-bind env _ _ (Ends-find_pvc env (key "/uid=" <> req.volume_id))
                  λ pvc. Ends-unstage env lib law pvc.name pvc.namespace node_name
