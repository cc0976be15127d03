-- ===== src/Cluster/Roles.antt =====
-- What an actor may do to the claim: it takes the volume for a purpose and frees it in the end, or it
-- stages it on a node, or unstages it, or it deletes the volume and releases the claim.
use subprovisioner.Base.{String, ◌≡◌, ◌⊎◌, ◌==◌, true, [], ◌∷◌}
use subprovisioner.Base.Dict
use subprovisioner.Kube.Objects.{Pvc, MetaPatch}
use subprovisioner.Kube.Errors.{ok}
use subprovisioner.Kube.Calls.{
  create_replica_set, Call, Event, event, History, get_pvc, update_pvc, patch_pvc, create_job,
}
use subprovisioner.Kube.Contract.{Saw, Outcome}
use subprovisioner.Kube.Libraries.{Libraries, IsLawful}
use subprovisioner.Common.NodeSet.Splitting.{IsName}
use subprovisioner.Common.Pvc.{state_key, nodes_key}
use subprovisioner.Common.Pvc.Claim.{Claimed, ClaimOrder}
use subprovisioner.Common.Pvc.Staging.{StageOrder, StageDone, UnstageOrder}
use subprovisioner.Common.Pvc.Exclusion.{Purpose, purpose_state}
use subprovisioner.Controller.Monitor.{remove_finalizer}
use subprovisioner.Cluster.{overlay}

pub data Role : Type 0 where
  taker : Purpose → Role
  stager : (node : String) → IsName node → Role
  unstager : String → Role
  remover : Role

-- The claim without the monitor's finalizer.
abbrev pub released : Pvc → Pvc
released pvc = record pvc { finalizers = remove_finalizer pvc.finalizers }

-- The latest event was a read, and the update is what was read without the finalizer.
abbrev pub IsReleased : History → Pvc → Type 0
IsReleased (event (get_pvc _ _) (ok pvc) ∷ _) written = written ≡ released pvc
IsReleased _ _ = ⊥

-- A claim was read that has this namespace and name.
abbrev pub NamedBy : String → String → Event → Type 0
NamedBy namespace name (event (get_pvc _ _) (ok pvc)) =
    (pvc.namespace ≡ namespace) × (pvc.name ≡ name)
NamedBy namespace name _ = ⊥

-- A claim was read that lists no node.
abbrev pub Removable : Event → Type 0
Removable (event (get_pvc _ _) (ok pvc)) = (Dict.get pvc.annotations nodes_key == "") ≡ true
Removable _ = ⊥

-- No patch so far.
abbrev pub Unpatched : History → Type 0
Unpatched [] = Unit
Unpatched (event (patch_pvc _ _ _) _ ∷ h) = ⊥
Unpatched (event _ _ ∷ h) = Unpatched h

-- A patch that frees a volume: it sets the idle state and leaves the nodes alone.
abbrev pub SetsIdle : MetaPatch → Type 0
SetsIdle patch =
    (old : String)
    → (overlay patch.annotations state_key old ≡ "idle")
      × (overlay patch.annotations nodes_key old ≡ old)

-- Nothing is asked of the end of a program.
abbrev pub AnyEnd {ℓ} : {A : Type ℓ} → History → Outcome A → Type 0
AnyEnd h o = Unit

module _ (lib : Libraries) (law : IsLawful lib) (namespace name : String) where
  -- From the moment that the volume is known to be taken up to the patch.
  abbrev pub Working : Role → History → Type 0
  Working (taker purpose) h = Saw (Claimed namespace name (purpose_state purpose)) h × Unpatched h
  Working (stager _ _) h = ⊥
  Working (unstager _) h = ⊥
  Working remover h = ⊥

  abbrev pub RoleOrder : Role → History → Call → Type 0
  RoleOrder remover h (get_pvc n m) = ((n ≡ namespace) × (m ≡ name)) ⊎ Saw (NamedBy n m) h
  RoleOrder role h (get_pvc n m) = (n ≡ namespace) × (m ≡ name)
  RoleOrder (taker purpose) h (update_pvc n written) =
      ClaimOrder namespace name (purpose_state purpose) h (update_pvc n written)
  RoleOrder (stager node proper) h (update_pvc n written) =
      StageOrder namespace name node lib law h (update_pvc n written)
  RoleOrder (unstager node) h (update_pvc n written) =
      UnstageOrder namespace name node lib law h (update_pvc n written)
  RoleOrder remover h (update_pvc n written) = IsReleased h written
  RoleOrder (taker purpose) h (patch_pvc n m patch) =
      (n ≡ namespace) × (m ≡ name) × Working (taker purpose) h × SetsIdle patch
  RoleOrder (stager _ _) h (patch_pvc _ _ _) = ⊥
  RoleOrder (unstager _) h (patch_pvc _ _ _) = ⊥
  RoleOrder remover h (patch_pvc _ _ _) = ⊥
  RoleOrder remover h (create_job _ _) = Saw Removable h
  RoleOrder role h (create_job _ _) = Working role h
  RoleOrder (stager node proper) h (create_replica_set _ _) =
      Saw (StageDone namespace name node lib law) h
  RoleOrder role h _ = Unit
