-- ===== src/Common/Pvc/Ending.antt =====
-- The programs on claims and snapshots end against every server: they do not poll.
use subprovisioner.Base.{String, Option, none, some, List, [], ◌∷◌, ◌==◌}
use subprovisioner.Base.Dict
use subprovisioner.Kube.Objects.{Pvc, MetaPatch}
use subprovisioner.Kube.Errors.{ok, err}
use subprovisioner.Kube.Run.{Environment}
use subprovisioner.Kube.Libraries.{Libraries, IsLawful}
use subprovisioner.Kube.Ends.{Ends, Ends-ret, Ends-fail, Ends-call, Ends-if, Ends-lift, Ends-retry}
use subprovisioner.Common.Pvc.{
  only_item, find_pvc_by_label_selector, strategic_merge_patch_pvc, set_pvc_state_to_idle, is_set,
  leave_state, set_pvc_state_attempt, set_pvc_state_to, stage_refusal, enter_staged,
  stage_pvc_attempt, stage_pvc_on_node, unstage_pvc_attempt, unstage_pvc_from_node, state_key,
}

module _ (env : Environment) where
  pub Ends-only_item {ℓ} : {A : Type ℓ} (items : List A) → Ends env (only_item items)
  Ends-only_item {A} [] = Ends-fail env A _
  Ends-only_item (item ∷ []) = Ends-ret env item
  Ends-only_item {A} (_ ∷ _ ∷ _) = Ends-fail env A _

  pub Ends-find_pvc : (selector : String) → Ends env (find_pvc_by_label_selector selector)
  unfolding find_pvc_by_label_selector
  Ends-find_pvc selector =
      Ends-call env _ _ (elim [ ok items ↦ Ends-only_item items | err e ↦ Ends-fail env Pvc e ])

  pub Ends-patch_pvc :
      (name namespace : String) (patch : MetaPatch)
      → Ends env (strategic_merge_patch_pvc name namespace patch)
  unfolding strategic_merge_patch_pvc
  Ends-patch_pvc name namespace patch = Ends-call env _ _ (Ends-lift env)

  pub Ends-set_idle : (name namespace : String) → Ends env (set_pvc_state_to_idle name namespace)
  unfolding set_pvc_state_to_idle
  Ends-set_idle name namespace = Ends-patch_pvc name namespace _

  Ends-leave_state :
      (namespace : String) (pvc : Pvc) (new_state state : String)
      → Ends env (leave_state namespace pvc new_state state)
  unfolding leave_state
  Ends-leave_state namespace pvc new_state state =
      Ends-if env (state == new_state) _ _ (Ends-ret env tt) (
        Ends-if env (state == "idle") _ _ (Ends-call env _ _ (Ends-lift env))
          (Ends-fail env (Unit {0}) _))

  Ends-enter_staged :
      (lib : Libraries) (namespace node : String) (pvc : Pvc) (refusal : Option String)
      → Ends env (enter_staged lib namespace node pvc refusal)
  unfolding enter_staged
  Ends-enter_staged lib namespace node pvc (some message) = Ends-fail env (Unit {0}) _
  Ends-enter_staged lib namespace node pvc none = Ends-call env _ _ (Ends-lift env)

  module _ (lib : Libraries) (law : IsLawful lib) (name namespace : String) where
    pub Ends-set_pvc_state_to :
        (state : String) → Ends env (set_pvc_state_to lib name namespace state)
    unfolding set_pvc_state_to set_pvc_state_attempt
    Ends-set_pvc_state_to state =
        Ends-retry env lib law (set_pvc_state_attempt name namespace state) (
          Ends-call env _ _ (elim [
            | ok pvc ↦
                Ends-if env (is_set pvc.deletion_timestamp) _ _ (Ends-fail env (Unit {0}) _)
                  (Ends-leave_state namespace pvc state (Dict.get pvc.annotations state_key))
            | err e ↦ Ends-fail env (Unit {0}) e
          ]))

    pub Ends-stage : (node : String) → Ends env (stage_pvc_on_node lib name namespace node)
    unfolding stage_pvc_on_node stage_pvc_attempt
    Ends-stage node = Ends-retry env lib law (stage_pvc_attempt lib name namespace node) (
        Ends-call env _ _ (elim [
          | ok pvc ↦ Ends-if env (is_set pvc.deletion_timestamp) _ _ (Ends-fail env (Unit {0}) _) (
              Ends-enter_staged lib namespace node pvc
                (stage_refusal (Dict.get pvc.annotations state_key)))
          | err e ↦ Ends-fail env (Unit {0}) e
        ]))

    pub Ends-unstage : (node : String) → Ends env (unstage_pvc_from_node lib name namespace node)
    unfolding unstage_pvc_from_node unstage_pvc_attempt
    Ends-unstage node = Ends-retry env lib law (unstage_pvc_attempt lib name namespace node) (
        Ends-call env _ _ (elim [
          | ok pvc ↦ Ends-call env _ _ (Ends-lift env)
          | err e ↦ Ends-fail env (Unit {0}) e
        ]))
