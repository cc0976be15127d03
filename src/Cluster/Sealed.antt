-- ===== src/Cluster/Sealed.antt =====
-- A claim that is being deleted and lists no node, and what the updates of the roles make of it.
use mathlib.Core.Bool.{false≢true}
use mathlib.Core.Path.{subst, ap}
use subprovisioner.Base.{String, ◌≡◌, refl, sym, ◌∙◌, ◌==◌, true, false, contains, eq_iff}
use subprovisioner.Base.Dict
use subprovisioner.Kube.Objects.{Pvc}
use subprovisioner.Kube.Libraries.{Libraries}
use subprovisioner.Common.NodeSet
use subprovisioner.Common.Pvc.{is_set, nodes_key, unstaged_from}
use subprovisioner.Common.Pvc.Nodes.{state_of, nodes_of}
use subprovisioner.Common.Pvc.Consistency.{IsConsistent, is_nonempty}
use subprovisioner.Common.Pvc.Refinement.{unstaged-timestamp}
use subprovisioner.Common.Pvc.Exclusion.{contains_of_empty}

abbrev pub IsDeleting : Pvc → Type 0
IsDeleting pvc = is_set pvc.deletion_timestamp ≡ true

abbrev pub NoNodes : Pvc → Type 0
NoNodes pvc = is_nonempty (nodes_of pvc) ≡ false

abbrev pub IsSealed : Pvc → Type 0
IsSealed pvc = IsDeleting pvc × NoNodes pvc

-- A change keeps a claim being deleted, and without nodes if it has none.
abbrev pub KeepsSealed : Pvc → Pvc → Type 0
KeepsSealed pvc new =
    IsConsistent pvc → IsDeleting pvc → IsDeleting new × (NoNodes pvc → NoNodes new)

pub NoNodes-read : (pvc : Pvc) → (Dict.get pvc.annotations nodes_key == "") ≡ true → NoNodes pvc
NoNodes-read pvc none =
    rw ((eq_iff (Dict.get pvc.annotations nodes_key) "").0 none)
      (unfold NodeSet.string_list_to_set in refl)

pub NoNodes-lists : (pvc : Pvc) (node : String) → NoNodes pvc → contains (nodes_of pvc) node ≡ false
NoNodes-lists pvc node none = contains_of_empty (nodes_of pvc) node none

-- A write that is only made to a claim that is not being deleted.
pub alive-KeepsSealed :
    (pvc new : Pvc) → is_set pvc.deletion_timestamp ≡ false → KeepsSealed pvc new
alive-KeepsSealed pvc new alive _ deleting = absurd (false≢true (sym alive ∙ deleting))

pub same-KeepsSealed :
    (pvc new : Pvc)
    → is_set new.deletion_timestamp ≡ is_set pvc.deletion_timestamp
    → nodes_of new ≡ nodes_of pvc
    → KeepsSealed pvc new
same-KeepsSealed pvc new timestamp nodes _ deleting = (timestamp ∙ deleting, λ none. rw nodes none)

unstaged-idle :
    (lib : Libraries) (node : String) (pvc : Pvc)
    → (state_of pvc == "staged") ≡ false
    → unstaged_from lib node pvc ≡ pvc
unfolding unstaged_from
unstaged-idle lib node pvc other = rw other refl

pub unstage-KeepsSealed :
    (lib : Libraries) (namespace name node : String) (pvc : Pvc)
    → KeepsSealed pvc (unstaged_from lib node pvc)
unstage-KeepsSealed lib namespace name node pvc c deleting = (
  ap is_set (unstaged-timestamp lib namespace name node pvc) ∙ deleting,
  λ none. subst NoNodes (sym (unstaged-idle lib node pvc (c.staged_nodes ∙ none))) none,
)
