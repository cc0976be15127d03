-- ===== src/Common/ReplicaSet.antt =====
-- pkg/csiplugin/common/replicaset.go
pub mod Polling
pub mod Ending
use subprovisioner.Base.{
  ℕ, zero, suc, String, true, Option, none, some, List, [], ◌∷◌, if◌then◌else◌,
}
use subprovisioner.Base.Int.{ℤ}
use subprovisioner.Base.Dict.{Dict}
use subprovisioner.Kube.Objects
use subprovisioner.Kube.Objects.{claim, host_directory}
use subprovisioner.Kube.Errors.{Error, ok, err, is_already_exists, is_not_found, error_of}
use subprovisioner.Kube.Calls.{
  create_replica_set as create_replica_set_call, list_replica_sets, get_replica_set,
  delete_replica_set, sleep,
}
use subprovisioner.Kube.Prog.{Prog, ret, fail, unfinished, call, lift, ◌>>=◌}
use subprovisioner.Common.Pvc.{only_item}

pub record ReplicaSetConfig : Type 0 where
  pub name : String
  pub namespace : String
  pub labels : Dict
  pub annotations : Dict
  pub match_labels : Dict
  pub replicas : ℤ
  pub node_name : String
  pub image : String
  pub command : List String
  pub args : List String
  pub backing_pvc_name : String
  pub backing_pvc_base_path : String

unfoldable pub replica_set_of : ReplicaSetConfig → Objects.ReplicaSet
replica_set_of config = record {
  name = config.name;
  namespace = config.namespace;
  labels = config.labels;
  annotations = config.annotations;
  replicas = config.replicas;
  match_labels = config.match_labels;
  template_labels = config.match_labels;
  pod_spec = record {
    node_name = config.node_name;
    restart_policy = "";
    containers =
        record {
          name = "container";
          image = config.image;
          command = config.command;
          args = config.args;
          privileged = true;
          volume_mounts =
              record {
                name = "backing";
                mount_path = "/var/backing";
                sub_path = config.backing_pvc_base_path;
              }
              ∷ record {
                name = "plugins-dir";
                mount_path = "/var/lib/kubelet/plugins";
                sub_path = "";
              }
              ∷ record { name = "volume-dir"; mount_path = "/var/lib/kubelet/pods"; sub_path = "" }
              ∷ [];
        }
        ∷ [];
    volumes =
        record { name = "backing"; source = claim config.backing_pvc_name }
        ∷ record { name = "plugins-dir"; source = host_directory "/var/lib/kubelet/plugins" }
        ∷ record { name = "volume-dir"; source = host_directory "/var/lib/kubelet/pods" }
        ∷ [];
  };
}

unfoldable pub create_replica_set : ReplicaSetConfig → Prog (Unit {0})
create_replica_set config =
    call (create_replica_set_call config.namespace (replica_set_of config))
      λ r. elim r [ ok _ ↦ ret tt | err e ↦ if is_already_exists e then ret tt else fail e ]

unfoldable pub find_replica_set_by_label_selector : String → Prog Objects.ReplicaSet
find_replica_set_by_label_selector label_selector =
    call (list_replica_sets label_selector) lift >>= only_item

-- The loop of `DeleteReplicaSetSynchronously`, over the `err` that it looks at.
await_replica_set_gone : ℕ → String → String → Option Error → Prog (Unit {0})
await_replica_set_gone rounds name namespace (some e) = if is_not_found e then ret tt else fail e
await_replica_set_gone zero name namespace none = unfinished
await_replica_set_gone (suc rounds) name namespace none = call (sleep 1) λ _.
    call (get_replica_set namespace name)
      λ r. await_replica_set_gone rounds name namespace (error_of r)

unfoldable pub delete_replica_set_synchronously : ℕ → String → String → Prog (Unit {0})
unfolding await_replica_set_gone
delete_replica_set_synchronously rounds replica_set_name replica_set_namespace =
    call (delete_replica_set replica_set_namespace replica_set_name)
      λ r. await_replica_set_gone rounds replica_set_name replica_set_namespace (error_of r)
