-- ===== src/Cluster/Listing.antt =====
-- What the updates of the roles do to a node that the claim lists.
use mathlib.Core.Bool.{false≢true}
use mathlib.Core.Path.{subst, ap}
use subprovisioner.Base.{
  String, ◌≡◌, ◌≢◌, ◌⊎◌, refl, sym, ◌∙◌, ◌==◌, true, false, inl, inr, Bool-cases, eq_iff, contains,
  arith,
}
use subprovisioner.Kube.Objects.{Pvc}
use subprovisioner.Kube.Libraries.{Libraries, IsLawful}
use subprovisioner.Common.NodeSet.Splitting.{IsName}
use subprovisioner.Common.Pvc.{staged_on, unstaged_from}
use subprovisioner.Common.Pvc.Nodes.{state_of, nodes_of, staged_on_lem, unstaged_from_lem}
use subprovisioner.Common.Pvc.Consistency.{IsConsistent, nonempty_of_contains}
use subprovisioner.Common.Pvc.Exclusion.{Purpose, not_staged}
use subprovisioner.Cluster.Roles.{Role, taker, stager, unstager, remover, released}

abbrev pub Lists : String → Pvc → Type 0
Lists node pvc = contains (nodes_of pvc) node ≡ true

-- An update keeps a node listed, or lists it, unless its role is to unstage that node.
abbrev pub KeepsListing : Role → Pvc → Pvc → Type 0
KeepsListing role pvc written =
    (node : String)
    → IsConsistent pvc
    → role ≢ unstager node
    → Lists node pvc ⊎ ((proper : IsName node) × (role ≡ stager node proper))
    → Lists node written

abbrev IsStager : Role → Type 0
IsStager (stager _ _) = Unit
IsStager _ = ⊥

abbrev staged_node : Role → String
staged_node (stager node _) = node
staged_node _ = ""

pub Lists-staged :
    (node : String) (pvc : Pvc)
    → IsConsistent pvc
    → Lists node pvc
    → (state_of pvc == "staged") ≡ true
Lists-staged node pvc c listed = c.staged_nodes ∙ nonempty_of_contains (nodes_of pvc) node listed

-- A volume in another state lists no node.
pub other_state-Lists :
    (node : String) (pvc : Pvc)
    → IsConsistent pvc
    → (state_of pvc == "staged") ≡ false
    → ¬ Lists node pvc
other_state-Lists node pvc c other listed = false≢true (sym other ∙ Lists-staged node pvc c listed)

pub take-KeepsListing :
    (purpose : Purpose) (pvc written : Pvc)
    → (state_of pvc == "idle") ≡ true
    → KeepsListing (taker purpose) pvc written
take-KeepsListing purpose pvc written idle node c other (inl listed) =
    absurd (other_state-Lists node pvc c (not_staged (state_of pvc) "idle" idle refl) listed)
take-KeepsListing purpose pvc written idle node c other (inr (proper, same)) =
    absurd (subst IsStager (sym same) tt)

pub release-KeepsListing : (pvc : Pvc) → KeepsListing remover pvc (released pvc)
release-KeepsListing pvc node c other (inl listed) = listed
release-KeepsListing pvc node c other (inr (proper, same)) = absurd (subst IsStager (sym same) tt)

module _ (lib : Libraries) (law : IsLawful lib) where
  pub stage-KeepsListing :
      (node : String) (proper : IsName node) (pvc : Pvc)
      → KeepsListing (stager node proper) pvc (staged_on lib node pvc)
  stage-KeepsListing node proper pvc other c differs listed =
      let same = (staged_on_lem lib law node pvc c.names other "" proper refl refl).1 in
      elim listed [
        | inl old ↦ ground (arith, same, old)
        | inr (_, new) ↦ ground (arith, same, (eq_iff node other).1 (ap staged_node new))
      ]

  pub unstage-KeepsListing :
      (node : String) (pvc : Pvc) → KeepsListing (unstager node) pvc (unstaged_from lib node pvc)
  unstage-KeepsListing node pvc other c differs (inr (proper, same)) =
      absurd (subst IsStager (sym same) tt)
  unstage-KeepsListing node pvc other c differs (inl listed) =
      let same =
        unstaged_from_lem lib law node pvc c.names other (Lists-staged other pvc c listed) in
      elim (Bool-cases (node == other)) [
        | inl equal ↦ absurd (differs (ap unstager ((eq_iff node other).0 equal)))
        | inr apart ↦ ground (arith, same, apart, listed)
      ]
