-- ===== src/Common/Pvc.antt =====
-- pkg/csiplugin/common/pvc.go: volume claims, and the state machine in their annotations.
pub mod Claim
pub mod Accepting
pub mod Nodes
pub mod Consistency
pub mod Exclusion
pub mod Changes
pub mod Refinement
pub mod Staging
pub mod Ending
pub mod Abstract
use subprovisioner.Base.{
  String, ◌==◌, Bool, true, false, not, ◌&&◌, Option, none, some, List, [], ◌∷◌, if◌then◌else◌,
}
use subprovisioner.Base.Dict
use subprovisioner.Kube.Objects.{Pvc, MetaPatch}
use subprovisioner.Kube.Errors.{plain, status, failed_precondition}
use subprovisioner.Kube.Calls.{get_pvc, list_pvcs, patch_pvc, update_pvc}
use subprovisioner.Kube.Prog.{Prog, ret, fail, call, lift, ◌>>=◌}
use subprovisioner.Kube.Libraries.{Libraries}
use subprovisioner.Common.Config.{key}
use subprovisioner.Common.NodeSet

abbrev pub state_key : String
state_key = key "/state"

abbrev pub nodes_key : String
nodes_key = key "/staged-on-nodes"

-- `len(list.Items)` is 0, 1 or more.
abbrev pub only_item {ℓ} : {A : Type ℓ} → List A → Prog A
only_item [] = fail (plain "no objects found")
only_item (item ∷ []) = ret item
only_item _ = fail (plain "more than one object found")

unfoldable pub find_pvc_by_label_selector : String → Prog Pvc
find_pvc_by_label_selector label_selector = call (list_pvcs label_selector) lift >>= only_item

-- The patch is a plain value, which `json.Marshal` always accepts.
unfoldable pub strategic_merge_patch_pvc : String → String → MetaPatch → Prog (Unit {0})
strategic_merge_patch_pvc pvc_name pvc_namespace patch =
    call (patch_pvc pvc_namespace pvc_name patch) lift

abbrev pub idle_patch : MetaPatch
idle_patch = record { labels = []; annotations = (state_key, "idle") ∷ []; finalizers = [] }

unfoldable pub set_pvc_state_to_idle : String → String → Prog (Unit {0})
unfolding strategic_merge_patch_pvc
set_pvc_state_to_idle pvc_name pvc_namespace =
    strategic_merge_patch_pvc pvc_name pvc_namespace idle_patch

abbrev pub precondition {ℓ} : {A : Type ℓ} → String → Prog A
precondition message = fail (status failed_precondition message)

abbrev pub is_set : Option String → Bool
is_set none = false
is_set (some _) = true

abbrev pub with_state : Pvc → String → Pvc
with_state pvc new_state = record pvc { annotations = Dict.set pvc.annotations state_key new_state }

-- The message of the `switch` of `SetPvcStateTo` for a state that is neither wanted nor idle.
unfoldable pub refusal : String → String
refusal state =
    if state == "expanding"
    then "volume is being expanded"
    else if state == "cloning"
    then "volume is being cloned"
    else if state == "snapshotting"
    then "volume is being snapshotted"
    else if state == "staged"
    then "volume is staged"
    else "volume is in an unknown state"

-- The `switch`, whose first case is the wanted state itself.
unfoldable pub leave_state : String → Pvc → String → String → Prog (Unit {0})
unfolding refusal
leave_state pvc_namespace pvc new_state state =
    if state == new_state
    then ret tt
    else if state == "idle"
    then call (update_pvc pvc_namespace (with_state pvc new_state)) lift
    else precondition (refusal state)

unfoldable pub set_pvc_state_attempt : String → String → String → Prog (Unit {0})
unfolding leave_state
set_pvc_state_attempt pvc_name pvc_namespace new_state = do
  pvc ← call (get_pvc pvc_namespace pvc_name) lift
  if is_set pvc.deletion_timestamp
      then precondition "volume is being deleted"
      else leave_state pvc_namespace pvc new_state (Dict.get pvc.annotations state_key)

unfoldable pub set_pvc_state_to : Libraries → String → String → String → Prog (Unit {0})
set_pvc_state_to lib pvc_name pvc_namespace new_state =
    lib.retry_on_conflict (set_pvc_state_attempt pvc_name pvc_namespace new_state)

-- The claim as `StagePvcOnNode` writes it.
unfoldable pub staged_on : Libraries → String → Pvc → Pvc
staged_on lib node_name pvc =
    let nodes =
      NodeSet.insert node_name (NodeSet.string_list_to_set (Dict.get pvc.annotations nodes_key)) in
    record pvc {
      annotations =
          Dict.set (Dict.set pvc.annotations state_key "staged") nodes_key
            (NodeSet.set_to_string_list lib nodes);
    }

-- The message of `StagePvcOnNode` for a state that it does not accept.
unfoldable pub stage_refusal : String → Option String
stage_refusal state =
    if state == "expanding"
    then some "volume is being expanded"
    else if state == "snapshotting"
    then some "volume is being snapshotted"
    else if state == "cloning"
    then some "volume is being cloned"
    else if not (state == "idle") && not (state == "staged")
    then some "volume is in an unknown state"
    else none

-- What `StagePvcOnNode` does with a claim that is not being deleted.
unfoldable pub enter_staged : Libraries → String → String → Pvc → Option String → Prog (Unit {0})
enter_staged lib pvc_namespace node_name pvc (some message) = precondition message
enter_staged lib pvc_namespace node_name pvc none =
    call (update_pvc pvc_namespace (staged_on lib node_name pvc)) lift

unfoldable pub stage_pvc_attempt : Libraries → String → String → String → Prog (Unit {0})
unfolding stage_refusal enter_staged
stage_pvc_attempt lib pvc_name pvc_namespace node_name = do
  pvc ← call (get_pvc pvc_namespace pvc_name) lift
  if is_set pvc.deletion_timestamp
      then precondition "volume is being deleted"
      else enter_staged lib pvc_namespace node_name pvc
          (stage_refusal (Dict.get pvc.annotations state_key))

unfoldable pub stage_pvc_on_node : Libraries → String → String → String → Prog (Unit {0})
stage_pvc_on_node lib pvc_name pvc_namespace node_name =
    lib.retry_on_conflict (stage_pvc_attempt lib pvc_name pvc_namespace node_name)

abbrev without_nodes : Libraries → List String → Pvc → Pvc
without_nodes lib [] pvc = record pvc {
  annotations = Dict.set (Dict.delete pvc.annotations nodes_key) state_key "idle";
}
without_nodes lib nodes pvc = record pvc {
  annotations = Dict.set pvc.annotations nodes_key (NodeSet.set_to_string_list lib nodes);
}

-- The claim as `UnstagePvcFromNode` writes it.
unfoldable pub unstaged_from : Libraries → String → Pvc → Pvc
unstaged_from lib node_name pvc =
    if Dict.get pvc.annotations state_key == "staged"
    then without_nodes lib
        (NodeSet.remove node_name (NodeSet.string_list_to_set (Dict.get pvc.annotations nodes_key)))
        pvc
    else pvc

unfoldable pub unstage_pvc_attempt : Libraries → String → String → String → Prog (Unit {0})
unstage_pvc_attempt lib pvc_name pvc_namespace node_name = do
  pvc ← call (get_pvc pvc_namespace pvc_name) lift
  call (update_pvc pvc_namespace (unstaged_from lib node_name pvc)) lift

unfoldable pub unstage_pvc_from_node : Libraries → String → String → String → Prog (Unit {0})
unstage_pvc_from_node lib pvc_name pvc_namespace node_name =
    lib.retry_on_conflict (unstage_pvc_attempt lib pvc_name pvc_namespace node_name)
