-- ===== src/Scripts/Replacing/Linking.antt =====
-- The `ln` that makes the ancestor, in front of the rest of a script.
use subprovisioner.Base.{ℕ, String, ◌≡◌, refl, sym, ◌∙◌, true, false, List, ◌∷◌}
use subprovisioner.Scripts.{Directory, Command, link, in_backing, Tools, IsDocumented, run_script}
use subprovisioner.Scripts.Chain.{Content}
use subprovisioner.Scripts.Ready.{Ready, IsSeparate, outcome-Ready}
use subprovisioner.Scripts.Running.{run_script-step, success_Effect, failure_Remains}
use subprovisioner.Scripts.Replacing.{Good, failed-Good}

module _ (exec : Tools) (documented : IsDocumented exec) (source ancestor : String)
    (Own : String → Type 0) (separate : IsSeparate source ancestor Own) (content : Content)
    (new : String) (Target : String → Type 0) where
  -- The `ln`, in front of the rest of a script.
  pub linked-Good :
      (stop : ℕ) (commands : List Command) (d : Directory)
      → Ready source ancestor Own content d
      → ((stop : ℕ) (e : Directory)
          → Ready source ancestor Own content e
          → e.names (in_backing ancestor) ≡ e.names source
          → Good source ancestor Own content new Target (run_script exec stop commands e))
      → Good source ancestor Own content new Target
          (run_script exec stop (link source (in_backing ancestor) ∷ commands) d)
  linked-Good stop commands d ready rest =
      let c = link source (in_backing ancestor) in
      let after = exec c d in
      run_script-step exec (Good source ancestor Own content new Target) stop c commands d
        (failed-Good source ancestor Own content new Target d ready)
        (λ failure. failed-Good source ancestor Own content new Target after.0 (
          outcome-Ready source ancestor Own separate content exec documented c d after.0 false
            (refl, refl) (failure_Remains exec documented c d failure) ready))
        (λ success stop.
          let effect = success_Effect exec documented c d success in
          let (file, at, (linked, kept), images) = effect in
          rest stop after.0
            (outcome-Ready source ancestor Own separate content exec documented c d after.0 true
              (refl, refl) effect ready)
            (linked ∙ sym at ∙ sym (kept source separate.source_ancestor)))
