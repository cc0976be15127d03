-- ===== src/Kube/Calls.antt =====
-- The calls that leave the plugin, with the type of the answer to each.
use subprovisioner.Base.{ℕ, String, Bool, Option, List}
use subprovisioner.Base.Int.{ℤ}
use subprovisioner.Kube.Objects.{Pvc, VolumeSnapshot, MetaPatch, Job, ReplicaSet}
use subprovisioner.Kube.Errors.{Error, Result}

-- What is registered with the gRPC server, with its image and node.
pub data Service : Type 0 where
  identity_server : Service
  controller_server : (image : String) → Service
  node_server : (node_name image : String) → Service

-- Namespaces come before names. `back_off` is the pause of the retry helper.
pub data Call : Type 0 where
  get_pvc : String → String → Call
  list_pvcs : String → Call
  patch_pvc : String → String → MetaPatch → Call
  update_pvc : String → Pvc → Call
  get_volume_snapshot : String → String → Call
  list_volume_snapshots : String → Call
  patch_volume_snapshot : String → String → MetaPatch → Call
  create_job : String → Job → Call
  get_job : String → String → Call
  delete_job : String → String → Call
  create_replica_set : String → ReplicaSet → Call
  list_replica_sets : String → Call
  get_replica_set : String → String → Call
  delete_replica_set : String → String → Call
  stat : String → Call
  remove : String → Call
  symlink : String → String → Call
  chmod : String → ℕ → Call
  context_err : Call
  now : Call
  sleep : ℕ → Call
  back_off : Call
  queue_get : Call
  queue_add : String → Call
  queue_done : String → Call
  queue_forget : String → Call
  queue_add_rate_limited : String → Call
  handle_error : Error → Call
  queue_shut_down : Call
  start_controller : (image : String) → Call
  start_informer : Call
  wait_for_cache_sync : Call
  start_worker : Call
  wait_for_stop : Call
  in_cluster_config : Call
  new_clientset : Call
  new_snapshot_clientset : Call
  listen : String → Call
  start_monitor : String → Call
  serve : List Service → Call
  log_printf : String → Call

-- A job is read for `Status.Succeeded`, an int32. A replica set is read for its name and namespace.
abbrev pub Reply : Call → Type 0
Reply (get_pvc _ _) = Result Pvc
Reply (list_pvcs _) = Result (List Pvc)
Reply (patch_pvc _ _ _) = Result (Unit {0})
Reply (update_pvc _ _) = Result (Unit {0})
Reply (get_volume_snapshot _ _) = Result VolumeSnapshot
Reply (list_volume_snapshots _) = Result (List VolumeSnapshot)
Reply (patch_volume_snapshot _ _ _) = Result (Unit {0})
Reply (create_job _ _) = Result (Unit {0})
Reply (get_job _ _) = Result ℤ
Reply (delete_job _ _) = Result (Unit {0})
Reply (create_replica_set _ _) = Result (Unit {0})
Reply (list_replica_sets _) = Result (List ReplicaSet)
Reply (get_replica_set _ _) = Result (Unit {0})
Reply (delete_replica_set _ _) = Result (Unit {0})
Reply (stat _) = Result ℕ
Reply (remove _) = Result (Unit {0})
Reply (symlink _ _) = Result (Unit {0})
Reply (chmod _ _) = Result (Unit {0})
Reply context_err = Option Error
Reply now = ℕ
Reply (sleep _) = Unit {0}
Reply back_off = Unit {0}
Reply queue_get = String × Bool
Reply (queue_add _) = Unit {0}
Reply (queue_done _) = Unit {0}
Reply (queue_forget _) = Unit {0}
Reply (queue_add_rate_limited _) = Unit {0}
Reply (handle_error _) = Unit {0}
Reply queue_shut_down = Unit {0}
Reply (start_controller _) = Unit {0}
Reply start_informer = Unit {0}
Reply wait_for_cache_sync = Bool
Reply start_worker = Unit {0}
Reply wait_for_stop = Unit {0}
Reply in_cluster_config = Result (Unit {0})
Reply new_clientset = Result (Unit {0})
Reply new_snapshot_clientset = Result (Unit {0})
Reply (listen _) = Result (Unit {0})
Reply (start_monitor _) = Unit {0}
Reply (serve _) = Result (Unit {0})
Reply (log_printf _) = Unit {0}

-- One call and its answer; a history has the latest first.
pub data Event : Type 0 where
  event : (c : Call) → Reply c → Event

abbrev pub History : Type 0
History = List Event
