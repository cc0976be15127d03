-- ===== src/Common/Pvc/Exclusion.antt =====
-- The writes to a claim as steps, and sequences of them.
use subprovisioner.Base.{
  String, ◌≡◌, refl, sym, ◌∙◌, ◌==◌, true, false, none, List, [], ◌∷◌, contains, eq_iff,
}
use subprovisioner.Kube.Objects.{Pvc}
use subprovisioner.Kube.Libraries.{Libraries, IsLawful}
use subprovisioner.Common.NodeSet.Splitting.{IsName}
use subprovisioner.Common.Pvc.{staged_on, unstaged_from, with_state, stage_refusal}
use subprovisioner.Common.Pvc.Nodes.{state_of, nodes_of}
use subprovisioner.Common.Pvc.Consistency.{
  IsConsistent, is_nonempty, with_state-IsConsistent, staged_on-IsConsistent,
  unstaged_from-IsConsistent,
}

-- What a volume is taken for.
pub data Purpose : Type 0 where
  expanding cloning snapshotting : Purpose

abbrev pub purpose_state : Purpose → String
purpose_state expanding = "expanding"
purpose_state cloning = "cloning"
purpose_state snapshotting = "snapshotting"

-- The writes: staging on a node, unstaging from a node, taking an idle volume for a purpose, setting
-- a volume that was taken back to idle, and changing the finalizers alone.
pub data Write (lib : Libraries) : Pvc → Pvc → Type 0 where
  stage :
      (node : String) (pvc : Pvc)
      → IsName node
      → stage_refusal (state_of pvc) ≡ none
      → Write lib pvc (staged_on lib node pvc)
  unstage : (node : String) (pvc : Pvc) → Write lib pvc (unstaged_from lib node pvc)
  take :
      (purpose : Purpose) (pvc : Pvc)
      → (state_of pvc == "idle") ≡ true
      → Write lib pvc (with_state pvc (purpose_state purpose))
  free :
      (purpose : Purpose) (pvc : Pvc)
      → (state_of pvc == purpose_state purpose) ≡ true
      → Write lib pvc (with_state pvc "idle")
  release :
      (pvc : Pvc) (finalizers : List String)
      → Write lib pvc (record pvc { finalizers = finalizers })

pub data Writes (lib : Libraries) (start : Pvc) : Pvc → Type 0 where
  here : Writes lib start start
  next :
      {pvc written : Pvc} → Writes lib start pvc → Write lib pvc written → Writes lib start written

pub not_staged :
    (state other : String)
    → (state == other) ≡ true
    → (other == "staged") ≡ false
    → (state == "staged") ≡ false
not_staged state other same different = rw ((eq_iff state other).0 same) different

pub purpose_not_staged : (purpose : Purpose) → (purpose_state purpose == "staged") ≡ false
purpose_not_staged expanding = refl
purpose_not_staged cloning = refl
purpose_not_staged snapshotting = refl

pub contains_of_empty :
    (set : List String) (item : String) → is_nonempty set ≡ false → contains set item ≡ false
contains_of_empty [] item h = refl
contains_of_empty (first ∷ rest) item h = cc

module _ (lib : Libraries) (law : IsLawful lib) where
  pub Write-IsConsistent :
      {pvc written : Pvc} → Write lib pvc written → IsConsistent pvc → IsConsistent written
  Write-IsConsistent (stage node pvc name accepted) c =
      staged_on-IsConsistent lib law node pvc c name
  Write-IsConsistent (unstage node pvc) c = unstaged_from-IsConsistent lib law node pvc c
  Write-IsConsistent (take purpose pvc idle) c =
      with_state-IsConsistent (purpose_state purpose) pvc (purpose_not_staged purpose)
        (not_staged (state_of pvc) "idle" idle refl) c
  Write-IsConsistent (free purpose pvc taken) c =
      with_state-IsConsistent "idle" pvc refl
        (not_staged (state_of pvc) (purpose_state purpose) taken (purpose_not_staged purpose)) c
  Write-IsConsistent (release pvc finalizers) c = record {
    names = c.names;
    staged_nodes = c.staged_nodes;
  }

  -- After any writes to a consistent claim it is consistent: it is staged just when it lists a node,
  -- and it lists only names.
  Writes-IsConsistent :
      {start pvc : Pvc} → Writes lib start pvc → IsConsistent start → IsConsistent pvc
  Writes-IsConsistent here c = c
  Writes-IsConsistent (next before write) c =
      Write-IsConsistent write (Writes-IsConsistent before c)

  -- After any writes to a consistent claim, a volume that is taken for a purpose is listed as staged
  -- on no node.
  taken_is_unstaged :
      {start pvc : Pvc} (purpose : Purpose) (node : String)
      → Writes lib start pvc
      → IsConsistent start
      → (state_of pvc == purpose_state purpose) ≡ true
      → contains (nodes_of pvc) node ≡ false
  taken_is_unstaged {pvc} purpose node writes c taken =
      let unstaged =
        not_staged (state_of pvc) (purpose_state purpose) taken (purpose_not_staged purpose) in
      contains_of_empty (nodes_of pvc) node
        (sym (Writes-IsConsistent writes c).staged_nodes ∙ unstaged)
