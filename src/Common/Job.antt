-- ===== src/Common/Job.antt =====
-- pkg/csiplugin/common/job.go. A polling loop takes the number of its rounds.
pub mod Polling
pub mod Liveness
pub mod Ending
use subprovisioner.Base.{
  ℕ, zero, suc, String, false, Option, none, some, List, [], ◌∷◌, if◌then◌else◌,
}
use subprovisioner.Base.Int.{pos, ltb_ℤ}
use subprovisioner.Base.Dict.{Dict}
use subprovisioner.Kube.Objects
use subprovisioner.Kube.Objects.{claim}
use subprovisioner.Kube.Errors.{Error, ok, err, is_already_exists, is_not_found, error_of}
use subprovisioner.Kube.Calls.{create_job as create_job_call, get_job, delete_job, sleep}
use subprovisioner.Kube.Prog.{Prog, ret, fail, unfinished, call}

pub record JobConfig : Type 0 where
  pub name : String
  pub namespace : String
  pub labels : Dict
  pub image : String
  pub command : List String
  pub args : List String
  pub backing_pvc_name : String
  pub backing_pvc_base_path : String

unfoldable pub job_of : JobConfig → Objects.Job
job_of config = record {
  name = config.name;
  namespace = config.namespace;
  labels = config.labels;
  backoff_limit = pos 99999;
  pod_spec = record {
    node_name = "";
    restart_policy = "Never";
    containers =
        record {
          name = "container";
          image = config.image;
          command = config.command;
          args = config.args;
          privileged = false;
          volume_mounts =
              record {
                name = "backing";
                mount_path = "/var/backing";
                sub_path = config.backing_pvc_base_path;
              }
              ∷ [];
        }
        ∷ [];
    volumes = record { name = "backing"; source = claim config.backing_pvc_name } ∷ [];
  };
}

unfoldable pub create_job : JobConfig → Prog (Unit {0})
create_job config =
    call (create_job_call config.namespace (job_of config))
      λ r. elim r [ ok _ ↦ ret tt | err e ↦ if is_already_exists e then ret tt else fail e ]

unfoldable pub wait_for_job_to_succeed : ℕ → String → String → Prog (Unit {0})
wait_for_job_to_succeed zero job_name job_namespace = unfinished
wait_for_job_to_succeed (suc rounds) job_name job_namespace =
    call (get_job job_namespace job_name) λ r. elim r [
      | ok succeeded ↦
          let more = call (sleep 1) (λ _. wait_for_job_to_succeed rounds job_name job_namespace) in
          if ltb_ℤ (pos 0) succeeded then ret tt else more
      | err e ↦ fail e
    ]

-- The loop of `DeleteJobSynchronously`, over the `err` that it looks at.
await_job_gone : ℕ → String → String → Option Error → Prog (Unit {0})
await_job_gone rounds job_name job_namespace (some e) = if is_not_found e then ret tt else fail e
await_job_gone zero job_name job_namespace none = unfinished
await_job_gone (suc rounds) job_name job_namespace none = call (sleep 1) λ _.
    call (get_job job_namespace job_name)
      λ r. await_job_gone rounds job_name job_namespace (error_of r)

unfoldable pub delete_job_synchronously : ℕ → String → String → Prog (Unit {0})
unfolding await_job_gone
delete_job_synchronously rounds job_name job_namespace =
    call (delete_job job_namespace job_name)
      λ r. await_job_gone rounds job_name job_namespace (error_of r)
