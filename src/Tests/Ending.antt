-- ===== src/Tests/Ending.antt =====
-- A server that is slow with jobs, and a request that ends against it.
use subprovisioner.Base.{refl, [], ◌∷◌, inl, inr}
use subprovisioner.Base.Int.{ℤ, pos}
use subprovisioner.Kube.Errors.{Result, ok, err, api, not_found}
use subprovisioner.Kube.Calls.{
  event, History, create_job, get_job, delete_job, sleep, stat, get_replica_set,
}
use subprovisioner.Kube.Run.{Environment, run}
use subprovisioner.Kube.Ends.{NotPolling}
use subprovisioner.Common.Util.{is_block_device}
use subprovisioner.Controller.Create.{create_volume}
use subprovisioner.Ending.{Prompt, requests_end}
use subprovisioner.Tests.Fixtures.{libraries, libraries-IsLawful, clone_request, quiet}

-- A job succeeds at the second read after its creation, and is gone at the second read after its
-- deletion.
abbrev job_answer : History → Result ℤ
job_answer (event (create_job _ _) _ ∷ _) = ok (pos 0)
job_answer (event (sleep _) _ ∷ event (get_job _ _) _ ∷ event (create_job _ _) _ ∷ _) = ok (pos 1)
job_answer (event (sleep _) _ ∷ event (delete_job _ _) _ ∷ _) = ok (pos 0)
job_answer _ = err (api not_found)

abbrev slow : Environment
slow h (get_job _ _) = job_answer h
slow h (get_replica_set _ _) = err (api not_found)
slow h (stat _) = ok 0x4000000
slow h c = quiet c

slow-Prompt : Prompt slow 3
unfolding is_block_device
slow-Prompt = record {
  jobs = record {
    settles = λ namespace job r h. inr (inl refl);
    goes = λ namespace name h. inr (inl tt);
  };
  replica_sets = λ namespace name h. inl tt;
  files = λ path namespace made r h. inl refl;
}

requests_end_example : NotPolling (run slow [] (create_volume libraries 3 "img" clone_request)).0
requests_end_example =
    (requests_end slow libraries libraries-IsLawful 3 slow-Prompt "img" "n1").0 clone_request []
