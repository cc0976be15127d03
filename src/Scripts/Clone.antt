-- ===== src/Scripts/Clone.antt =====
-- The clone script, behind any number of runs that were cut off before the `mv`.
use mathlib.Core.Path.{subst}
use subprovisioner.Base.{
  ℕ, zero, suc, String, ◌≡◌, ◌≢◌, ◌⊎◌, ◌<>◌, ◌≤◌, arith, refl, sym, ◌∙◌, Bool, true, false, none,
  some, List, [], ◌∷◌, inl, inr,
}
use subprovisioner.Scripts.{
  Directory, create, move, protect, in_backing, Tools, IsDocumented, run_script, run_scripts,
  clone_commands,
}
use subprovisioner.Scripts.Chain.{Content}
use subprovisioner.Scripts.Ready.{
  Ready, IsSeparate, outcome-Ready, MildBefore, AllUpTo, attempts-Ready,
}
use subprovisioner.Scripts.Replacing.Linking.{linked-Good}
use subprovisioner.Scripts.Running.{run_script-step, success_Effect, failure_Remains}
use subprovisioner.Scripts.Replacing.{Good, failed-Good, create_new-Good, linked_kept, Laid}

abbrev pub OwnOfClone : String → String → String → Type 0
OwnOfClone source dest path = (path ≡ dest) ⊎ (path ≡ source <> ".new")

-- The paths of a clone are four.
pub record CloneSeparate (source dest ancestor : String) : Type 0 where
  pub source_ancestor : source ≢ in_backing ancestor
  pub new_source : source <> ".new" ≢ source
  pub new_ancestor : source <> ".new" ≢ in_backing ancestor
  pub dest_source : dest ≢ source
  pub dest_ancestor : dest ≢ in_backing ancestor
  pub dest_new : dest ≢ source <> ".new"

clone-IsSeparate :
    (source dest ancestor : String)
    → CloneSeparate source dest ancestor
    → IsSeparate source ancestor (OwnOfClone source dest)
clone-IsSeparate source dest ancestor s = record {
  source_ancestor = s.source_ancestor;
  own_source = λ path own e. elim own [
    | inl same ↦ s.dest_source (sym same ∙ e)
    | inr same ↦ s.new_source (sym same ∙ e)
  ];
  own_ancestor = λ path own e. elim own [
    | inl same ↦ s.dest_ancestor (sym same ∙ e)
    | inr same ↦ s.new_ancestor (sym same ∙ e)
  ];
}

module _ (exec : Tools) (documented : IsDocumented exec) (source dest ancestor capacity : String)
    (separate : CloneSeparate source dest ancestor) (content : Content) where
  abbrev Fit : Directory → Type 0
  Fit = Ready source ancestor (OwnOfClone source dest) content

  abbrev IsDest : String → Type 0
  IsDest path = path ≡ dest

  abbrev Ends : Directory × Bool → Type 0
  Ends = Good source ancestor (OwnOfClone source dest) content (source <> ".new") IsDest

  apart : IsSeparate source ancestor (OwnOfClone source dest)
  apart = clone-IsSeparate source dest ancestor separate

  own_new : OwnOfClone source dest (source <> ".new")
  own_new = inr refl

  create_dest-Good :
      (stop : ℕ) (d : Directory)
      → Fit d
      → d.names (in_backing ancestor) ≡ d.names source
      → Ends (
          run_script exec stop
            (create ancestor dest (some capacity)
              ∷ create ancestor (source <> ".new") none
              ∷ move (source <> ".new") source
              ∷ protect (in_backing ancestor)
              ∷ [])
            d)
  create_dest-Good stop d ready linked =
      let c = create ancestor dest (some capacity) in
      let after = exec c d in
      run_script-step exec Ends stop c _ d
        (failed-Good source ancestor (OwnOfClone source dest) content (source <> ".new") IsDest d
          ready)
        (λ failure.
          failed-Good source ancestor (OwnOfClone source dest) content (source <> ".new") IsDest
            after.0
            (outcome-Ready source ancestor (OwnOfClone source dest) apart content exec documented c
              d after.0 false (refl, inl refl) (failure_Remains exec documented c d failure) ready))
        (λ success stop.
          let (write, image) = success_Effect exec documented c d success in
          create_new-Good source ancestor (OwnOfClone source dest) content (source <> ".new") IsDest
            exec documented apart own_new
            (λ path same. (inl same, λ e. separate.dest_new (sym same ∙ e))) stop none after.0
            (record {
              ready =
                  outcome-Ready source ancestor (OwnOfClone source dest) apart content exec
                    documented c d after.0 true (refl, inl refl) (write, image) ready;
              linked =
                  linked_kept source ancestor (OwnOfClone source dest) content (source <> ".new")
                    IsDest exec documented apart own_new
                    (λ path same. (inl same, λ e. separate.dest_new (sym same ∙ e))) d after.0 dest
                    (inl refl) write linked;
              laid = λ path same.
                  subst (Laid source ancestor (OwnOfClone source dest) after.0) (sym same)
                    (write.file, write.named.0, image);
            }))

  clone-MildBefore :
      (stop : ℕ)
      → stop ≤ 3
      → MildBefore source ancestor
          (OwnOfClone source dest)
          apart
          content
          exec
          documented
          stop
          (clone_commands source dest ancestor capacity)
  unfolding clone_commands
  clone-MildBefore zero _ = tt
  clone-MildBefore (suc zero) _ = ((refl, refl), tt)
  clone-MildBefore (suc (suc zero)) _ = ((refl, refl), ((refl, inl refl), tt))
  clone-MildBefore (suc (suc (suc zero))) _ =
      ((refl, refl), ((refl, inl refl), ((refl, inr refl), tt)))
  clone-MildBefore (suc (suc (suc (suc stop)))) h = absurd (omega arith)

  -- Runs that were cut off before the `mv`, and a last run.
  pub clone_commands_lem :
      (stops : List ℕ) (stop : ℕ) (d : Directory)
      → AllUpTo 3 stops
      → Ready source ancestor (OwnOfClone source dest) content d
      → Good source ancestor
          (OwnOfClone source dest)
          content
          (source <> ".new")
          (λ path. path ≡ dest)
          (run_script exec stop
            (clone_commands source dest ancestor capacity)
            (run_scripts exec stops (clone_commands source dest ancestor capacity) d))
  unfolding clone_commands
  clone_commands_lem stops stop d early ready =
      linked-Good exec documented source ancestor (OwnOfClone source dest) apart content
        (source <> ".new") IsDest stop _ _
        (attempts-Ready source ancestor (OwnOfClone source dest) apart content exec documented 3 _
          (λ stop. clone-MildBefore stop) stops early d ready)
        create_dest-Good
