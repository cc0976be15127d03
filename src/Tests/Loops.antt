-- ===== src/Tests/Loops.antt =====
-- Requests with numbers, and runs against scripted servers.
use subprovisioner.Base.{
  ℕ, ◌≡◌, refl, ◌==◌, ◌<◌, ◌≤◌, ◌%◌, ◌↔◌, All, arith, true, false, some, [], ◌∷◌, String, contains,
  ltb, if◌then◌else◌,
}
use subprovisioner.Base.Int.{pos, ltb_ℤ}
use subprovisioner.Strconv.{parse_int}
use subprovisioner.Kube.Errors.{ok, err, plain, api, not_found}
use subprovisioner.Kube.Calls
use subprovisioner.Kube.Calls.{Call, Reply, History, event}
use subprovisioner.Kube.Contract.{returned, failed, polling, Saw}
use subprovisioner.Common.Util.{is_block_device, wait_until_file_is_block_device}
use subprovisioner.Common.Util.Context.{ContextRead, wait_ignores_context}
use subprovisioner.Kube.Run.{Environment, run}
use subprovisioner.Common.Job.{wait_for_job_to_succeed, delete_job_synchronously}
use subprovisioner.Common.Job.Liveness.{
  reads, SucceedsAfter, GoneAfter, wait_for_job_to_succeed_returns,
  delete_job_synchronously_returns,
}
use subprovisioner.Common.Pvc.Accepting.{claimed_after}
use subprovisioner.Controller.Capacity.{Capacities, validate_capacity}
use subprovisioner.Controller.Capacity.Rounding.{
  range, verdict, validate_capacity_exact, validate_capacity_overflow,
}
use subprovisioner.Controller.Create.{check_capabilities, create_volume_from_volume, too_large}
use subprovisioner.Controller.Create.Requests.{IsServed, check_capabilities_exact}
use subprovisioner.Controller.Create.Refusal.{searched, clone_refusal_keeps_claim}
use subprovisioner.Controller.Monitor.{cleanup, has_finalizer, remove_finalizer}
use subprovisioner.Controller.Monitor.Finalizers.{count, remove_finalizer_lem}
use subprovisioner.Node.Stage.{node_unstage_volume, staging_selector}
use subprovisioner.Node.Stage.Repeating.{node_unstage_volume_retry}
use subprovisioner.Tests.Fixtures.{
  libraries, libraries-IsLawful, idle_pvc, backing, block_capability, unstage_request, quiet,
}

validate_capacity_exact_example :
    (capacity : ℕ) × (capacity % 512 ≡ 0)
    × (1000 ≤ capacity)
    × (capacity < 1512)
    × (validate_capacity (some (range 1000 2000)) ≡ verdict capacity 1000 2000)
validate_capacity_exact_example = validate_capacity_exact 1000 2000 (omega arith) (omega arith)

validate_capacity_overflow_example :
    (c : Capacities) × (validate_capacity (some (range 9223372036854775807 0)) ≡ ok c)
    × (ltb_ℤ c.capacity (pos 0) ≡ true)
validate_capacity_overflow_example =
    validate_capacity_overflow 9223372036854775807 0 (omega arith) (omega arith) refl

check_capabilities_exact_example :
    (check_capabilities (block_capability ∷ []) ≡ ok tt) ↔ All IsServed (block_capability ∷ [])
check_capabilities_exact_example = check_capabilities_exact (block_capability ∷ [])

remove_finalizer_lem_example :
    ((other : String)
      → (cleanup == other) ≡ false
      → contains (remove_finalizer ("other" ∷ cleanup ∷ [])) other
        ≡ contains ("other" ∷ cleanup ∷ []) other)
    × (count ("other" ∷ cleanup ∷ []) ≤ 1
        → has_finalizer (remove_finalizer ("other" ∷ cleanup ∷ [])) ≡ false)
remove_finalizer_lem_example = remove_finalizer_lem ("other" ∷ cleanup ∷ [])

-- A search of replica sets finds nothing on this server.
node_unstage_volume_retry_example :
    run (λ _. quiet) [] (node_unstage_volume libraries 3 "n1" unstage_request) ≡ (
      failed (plain "no objects found"),
      event (Calls.list_replica_sets (staging_selector "n1" "1234")) (ok []) ∷ [],
    )
node_unstage_volume_retry_example =
    node_unstage_volume_retry (λ _. quiet) libraries 3 "n1" unstage_request refl

-- A job that succeeds from its third read on.
abbrev slow_job : Environment
slow_job h (Calls.get_job _ _) = if ltb (reads h) 2 then ok (pos 0) else ok (pos 1)
slow_job h c = quiet c

slow_job-SucceedsAfter : SucceedsAfter slow_job "storage" "job" 2
slow_job-SucceedsAfter =
    (λ h few. (pos 0, ground arith, refl), λ h enough. (pos 1, ground arith, refl))

wait_for_job_to_succeed_returns_example :
    (run slow_job [] (wait_for_job_to_succeed 3 "job" "storage")).0 ≡ returned tt
wait_for_job_to_succeed_returns_example =
    wait_for_job_to_succeed_returns slow_job "storage" "job" 2 3 slow_job-SucceedsAfter
      (omega arith)

-- A job that is gone from its third read on.
abbrev leaving_job : Environment
leaving_job h (Calls.get_job _ _) = if ltb (reads h) 2 then ok (pos 0) else err (api not_found)
leaving_job h c = quiet c

leaving_job-GoneAfter : GoneAfter leaving_job "storage" "job" 2
leaving_job-GoneAfter =
    (refl, λ h few. (pos 0, ground arith), λ h enough. (api not_found, ground arith, refl))

delete_job_synchronously_returns_example :
    (run leaving_job [] (delete_job_synchronously 3 "job" "storage")).0 ≡ returned tt
delete_job_synchronously_returns_example =
    delete_job_synchronously_returns leaving_job "storage" "job" 2 3 leaving_job-GoneAfter
      (omega arith)

-- The source is found, idle, and larger than the clone may be.
abbrev with_source : Environment
with_source h (Calls.list_pvcs _) = ok (idle_pvc ∷ [])
with_source h c = quiet c

clone_refusal_keeps_claim_example :
    run with_source []
      (create_volume_from_volume libraries 3 "img" backing idle_pvc (pos 512) (pos 4096) "1234")
    ≡ (
      failed (too_large "source volume capacity" (pos 8192) (pos 4096)),
      claimed_after with_source idle_pvc "cloning" (
          searched with_source libraries libraries-IsLawful 3 "img" backing idle_pvc idle_pvc
            "1234"),
    )
clone_refusal_keeps_claim_example =
    clone_refusal_keeps_claim with_source libraries libraries-IsLawful 3 "img" backing idle_pvc
      idle_pvc "1234" (pos 512) (pos 4096) refl (refl, refl, refl, refl, refl) (pos 8192)
      (unfold parse_int in refl) refl

-- A file that is no device lies at the path.
wait_ignores_context_example :
    ((run (λ _. quiet) [] (wait_until_file_is_block_device 3 "/staging/1234")).0 ≡ polling)
    × (¬ Saw ContextRead
        (run (λ _. quiet) [] (wait_until_file_is_block_device 3 "/staging/1234")).1)
wait_ignores_context_example =
    wait_ignores_context (λ _. quiet) "/staging/1234" 0 (unfold is_block_device in refl) (λ h. refl)
      3
