-- ===== src/Tests/Claims.antt =====
-- Volumes in their states, lists of names, capacities and finalizers.
use mathlib.Core.Path.{subst}
use subprovisioner.Base.{Bool-cases, inl, inr, eq_iff, ◌≡◌, refl, ◌==◌, true, [], ◌∷◌, contains}
use subprovisioner.Common.Config.Names.{creation, job_name_determines}
use subprovisioner.Common.NodeSet.{string_list_to_set, set_to_string_list, split}
use subprovisioner.Common.NodeSet.Splitting.{
  IsName, AllNames, string_list_to_set-set_to_string_list,
}
use subprovisioner.Common.Pvc.{set_pvc_state_to, stage_pvc_on_node, unstage_pvc_from_node}
use subprovisioner.Common.Pvc.Changes.{Takes, Stages, Unstages}
use subprovisioner.Common.Pvc.Refinement.{StepOrder, AnyEnd, state_changes_are_steps}
use subprovisioner.Kube.Contract.{Meets}
use subprovisioner.Common.Pvc.Consistency.{IsConsistent}
use subprovisioner.Common.Pvc.Exclusion.{expanding}
use subprovisioner.Tests.Fixtures.{libraries, libraries-IsLawful, idle_pvc, staged_pvc}

two_names : AllNames ("n1" ∷ "n2" ∷ [])
two_names item h = elim (Bool-cases ("n1" == item)) [
  | inl first ↦ subst IsName ((eq_iff "n1" item).0 first) (refl, (refl, (refl, tt)))
  | inr other ↦ elim (Bool-cases ("n2" == item)) [
    | inl second ↦ subst IsName ((eq_iff "n2" item).0 second) (refl, (refl, (refl, tt)))
    | inr neither ↦ cc
  ]
]

string_list_to_set-set_to_string_list_example :
    contains (string_list_to_set (set_to_string_list libraries ("n1" ∷ "n2" ∷ []))) "n2" ≡ true
string_list_to_set-set_to_string_list_example =
    string_list_to_set-set_to_string_list libraries libraries-IsLawful ("n1" ∷ "n2" ∷ []) "n2"
      two_names

pub idle_pvc-IsConsistent : IsConsistent idle_pvc
unfolding string_list_to_set
idle_pvc-IsConsistent = record { names = λ item h. cc; staged_nodes = refl }

staged_pvc-IsConsistent : IsConsistent staged_pvc
unfolding string_list_to_set split
staged_pvc-IsConsistent = record { names = two_names; staged_nodes = refl }

state_changes_are_steps_example :
    Meets
      (StepOrder "default" "data" (Takes "expanding"))
      AnyEnd
      []
      (set_pvc_state_to libraries "data" "default" "expanding")
    × Meets
        (StepOrder "default" "data" (Stages "n3"))
        AnyEnd
        []
        (stage_pvc_on_node libraries "data" "default" "n3")
    × Meets
        (StepOrder "default" "data" (Unstages "n3"))
        AnyEnd
        []
        (unstage_pvc_from_node libraries "data" "default" "n3")
state_changes_are_steps_example =
    state_changes_are_steps libraries libraries-IsLawful "default" "data" expanding "n3"
      (refl, (refl, (refl, tt)))

job_name_determines_example : (creation ≡ creation) × (idle_pvc.uid ≡ staged_pvc.uid)
job_name_determines_example = job_name_determines creation creation idle_pvc.uid staged_pvc.uid refl
