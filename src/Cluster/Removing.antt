-- ===== src/Cluster/Removing.antt =====
-- The monitor at work on a claim: which of its calls are about the claim.
use subprovisioner.Base.{ℕ, String, refl, ◌==◌, ◌&&◌, [], ◌∷◌, inl, inr, arith}
use subprovisioner.Base.Dict
use subprovisioner.Kube.Objects.{Pvc}
use subprovisioner.Kube.Errors.{Result, ok, err, is_not_found}
use subprovisioner.Kube.Calls.{Call, event, History, back_off, get_pvc}
use subprovisioner.Kube.Contract.{
  Lasting, returned, failed, polling, Meets, Success, Saw, Caught, Meets-bind, Meets-catch,
  Meets-if,
}
use subprovisioner.Kube.Libraries.{Libraries, IsLawful}
use subprovisioner.Kube.Prog.{catch}
use subprovisioner.Kube.Retries.{Renewed, Meets-retry}
use subprovisioner.Common.Config.{key, generate_creation_job_name, generate_deletion_job_name}
use subprovisioner.Common.Job.Polling.{
  create_job-then, wait_for_job_to_succeed-then, delete_job_synchronously-then,
}
use subprovisioner.Controller.Snapshot.{backing_of}
use subprovisioner.Controller.Monitor.{
  has_finalizer, deletion_job, release_attempt, delete_volume, conclude, process_pvc,
  process_answer, process_named,
}
use subprovisioner.Cluster.Roles.{remover, NamedBy, Removable, RoleOrder, AnyEnd}

module _ (lib : Libraries) (law : IsLawful lib) (rounds : ℕ)
    (namespace name image queue_key : String) where
  abbrev RemoverOrder : History → Call → Type 0
  RemoverOrder = RoleOrder lib law namespace name remover

  -- The claim was read, under its name, without nodes.
  abbrev IsRead : Pvc → History → Type 0
  IsRead pvc h = Saw (NamedBy pvc.namespace pvc.name) h × Saw Removable h

  IsRead-Lasting : (pvc : Pvc) → Lasting (IsRead pvc)
  IsRead-Lasting pvc h e (named, removable) = (inr named, inr removable)

  abbrev Anything : History → Unit {0} → Type 0
  Anything h _ = Unit

  Meets-attempt :
      (pvc : Pvc) (h : History)
      → IsRead pvc h
      → Meets RemoverOrder
          (Renewed RemoverOrder (IsRead pvc) (Success Anything))
          h
          (release_attempt pvc)
  unfolding Meets release_attempt
  Meets-attempt pvc h (named, removable) = (
    inr named,
    elim [
      | ok current ↦ (
        refl,
        elim [
          | ok _ ↦ (tt, (inr (inr named), inr (inr removable)))
          | err e ↦ (tt, (inr (inr named), inr (inr removable)))
        ],
      )
      | err e ↦ (tt, (inr named, inr removable))
    ],
  )

  Meets-delete :
      (pvc : Pvc) (h : History)
      → IsRead pvc h
      → Meets RemoverOrder (Success Anything) h (delete_volume lib rounds image pvc)
  unfolding delete_volume
  Meets-delete pvc h is_read =
      let lasting = IsRead-Lasting pvc in
      let storage = (backing_of pvc).pvc_namespace in
      let deletion = generate_deletion_job_name pvc.uid in
      delete_job_synchronously-then RemoverOrder Anything (IsRead pvc) lasting rounds
        (generate_creation_job_name pvc.uid) storage (λ _. tt) (λ _. tt) _ h is_read tt
        λ h₁ read₁ _.
          create_job-then RemoverOrder Anything (IsRead pvc) lasting (deletion_job image pvc) _ h₁
            read₁ read₁.1
            λ h₂ read₂ _.
              wait_for_job_to_succeed-then RemoverOrder Anything (IsRead pvc) lasting rounds
                deletion storage (λ _. tt) (λ _. tt) _ h₂ read₂
                λ h₃ read₃ _.
                  delete_job_synchronously-then RemoverOrder Anything (IsRead pvc) lasting rounds
                    deletion storage (λ _. tt) (λ _. tt) _ h₃ read₃ tt
                    λ h₄ read₄ _.
                      Meets-retry RemoverOrder (IsRead pvc) (Success Anything) (λ _ _. tt)
                        (λ g. lasting g (event back_off tt)) lib law (release_attempt pvc)
                        (Meets-attempt pvc) h₄ read₄

  Meets-conclude :
      (h : History) (r : Result (Unit {0}))
      → Meets RemoverOrder AnyEnd h (conclude lib rounds image queue_key r)
  unfolding Meets
  Meets-conclude h (ok _) = (tt, λ _. tt)
  Meets-conclude h (err e) = (tt, λ _. (tt, λ _. tt))

  Meets-process_pvc :
      (h : History) (pvc : Pvc)
      → Meets RemoverOrder AnyEnd
          (event (get_pvc namespace name) (ok pvc) ∷ h)
          (process_pvc lib rounds image queue_key pvc)
  unfolding process_pvc
  Meets-process_pvc h pvc =
      let now = event (get_pvc namespace name) (ok pvc) ∷ h in
      Meets-if RemoverOrder AnyEnd now
        (Dict.get pvc.annotations (key "/staged-on-nodes") == "" && has_finalizer pvc.finalizers) _
        _
        (λ chosen.
          Meets-bind RemoverOrder (Caught RemoverOrder (Success Anything)) AnyEnd now
            (catch (delete_volume lib rounds image pvc)) _
            (Meets-catch RemoverOrder (Success Anything) now _
              (Meets-delete pvc now (inl (refl, refl), inl (ground (arith, chosen)))))
            λ g. elim [
              | returned r ↦ λ _. Meets-conclude g r
              | failed e ↦ λ _. tt
              | polling ↦ λ _. tt
            ])
        (λ _. Meets-conclude now (ok tt))

  Meets-process_answer :
      (h : History) (answer : Result Pvc)
      → Meets RemoverOrder AnyEnd
          (event (get_pvc namespace name) answer ∷ h)
          (process_answer lib rounds image queue_key answer)
  Meets-process_answer h (ok pvc) = Meets-process_pvc h pvc
  Meets-process_answer h (err e) =
      Meets-if RemoverOrder AnyEnd _ (is_not_found e) _ _ (λ _. Meets-conclude _ (ok tt))
        (λ _. Meets-conclude _ (err e))

  -- The monitor reads the claim, or claims by the name of one that it read; it creates jobs only after
  -- a read without nodes, and each update is the claim as it was read right before, without the
  -- finalizer.
  pub Meets-process_named :
      Meets RemoverOrder AnyEnd [] (process_named lib rounds image queue_key (ok (namespace, name)))
  unfolding Meets
  Meets-process_named = (inl (refl, refl), Meets-process_answer [])
