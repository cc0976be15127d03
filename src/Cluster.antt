-- ===== src/Cluster.antt =====
-- Several of the plugin's programs at work on one claim at the same time, in any interleaving of their
-- calls. The API server is not part of the repository: what is asked of it is in `Answers`, namely
-- that it compares the version of an update with the claim's, that a version is never given
-- twice, that a merge patch sets the annotations that it names and keeps the others and the deletion
-- timestamp, and that an error may be reported for a write that was made and for one that was not.
pub mod Roles
pub mod Listing
pub mod Sealed
pub mod Effects
pub mod Invariant
pub mod Taking
pub mod Removing
pub mod Workers
pub mod Exclusive
pub mod Going
pub mod Beginning
pub mod Joining
pub mod Overlapping
pub mod Staying
pub mod Changes
pub mod Sealing
pub mod Refining
pub mod Daemons
pub mod Deleting
use mathlib.Core.Logic.{ite}
use native.Mathlib.Decide.{ℕ_discrete}
use subprovisioner.Base.{
  ℕ, String, ◌≡◌, ◌⊎◌, ◌==◌, true, false, List, [], ◌∷◌, if◌then◌else◌, contains,
}
use subprovisioner.Base.Dict
use subprovisioner.Base.Dict.{Dict}
use subprovisioner.Kube.Objects.{Pvc, MetaPatch}
use subprovisioner.Kube.Errors.{ok, err}
use subprovisioner.Kube.Calls.{Call, Reply, event, History, get_pvc, update_pvc, patch_pvc}
use subprovisioner.Kube.Prog.{Prog, call}
use subprovisioner.Common.Pvc.{is_set, state_key, nodes_key}

-- The claim as the server has it, and the versions that it has given out.
pub record Server : Type 0 where
  pub claim : Pvc
  pub used : List String

-- A new claim gets a version that was not used before.
pub data Stored (before : Server) (new : Pvc) (after : Server) : Type 0 where
  stored :
      (version : String)
      → contains before.used version ≡ false
      → after
        ≡ record { claim = record new { resource_version = version }; used = version ∷ before.used }
      → Stored before new after

-- An annotation after a merge patch.
abbrev pub overlay : Dict → String → String → String
overlay [] k old = old
overlay ((j, v) ∷ patch) k old = if j == k then v else overlay patch k old

abbrev pub IsMerged : Pvc → MetaPatch → Pvc → Type 0
IsMerged old patch new =
    (is_set new.deletion_timestamp ≡ is_set old.deletion_timestamp)
    × ((k : String)
        → Dict.get new.annotations k ≡ overlay patch.annotations k (Dict.get old.annotations k))

-- What the server does with a call about the claim, and what it answers.
abbrev pub Answers : Server → (c : Call) → Reply c → Server → Type 0
Answers s (get_pvc _ _) (ok pvc) t = (pvc ≡ s.claim) × (t ≡ s)
Answers s (update_pvc _ written) (ok _) t =
    (written.resource_version ≡ s.claim.resource_version) × Stored s written t
Answers s (update_pvc _ written) (err _) t =
    (t ≡ s) ⊎ ((written.resource_version ≡ s.claim.resource_version) × Stored s written t)
Answers s (patch_pvc _ _ patch) (ok _) t = (new : Pvc) × IsMerged s.claim patch new × Stored s new t
Answers s (patch_pvc _ _ patch) (err _) t =
    (t ≡ s) ⊎ ((new : Pvc) × IsMerged s.claim patch new × Stored s new t)
Answers s _ r t = t ≡ s

-- A program with the calls that it has made.
pub record Actor : Type 0 where
  pub history : History
  pub program : Prog (Unit {0})

pub record System : Type 0 where
  pub server : Server
  pub actors : ℕ → Actor

abbrev pub replace : (ℕ → Actor) → ℕ → Actor → ℕ → Actor
replace actors i actor j = ite (ℕ_discrete i j) actor (actors j)

-- One call of one actor; or somebody else changes the claim, but not the plugin's two annotations,
-- and does not take back that the claim is being deleted.
pub data Step (s : System) : System → Type 0 where
  act :
      (i : ℕ) (c : Call) (k : Reply c → Prog (Unit {0})) (r : Reply c) (t : Server)
      → (s.actors i).program ≡ call c k
      → Answers s.server c r t
      → Step s (record {
        server = t;
        actors =
            replace s.actors i
              (record { history = event c r ∷ (s.actors i).history; program = k r });
      })
  outside :
      (new : Pvc) (t : Server)
      → Dict.get new.annotations state_key ≡ Dict.get s.server.claim.annotations state_key
      → Dict.get new.annotations nodes_key ≡ Dict.get s.server.claim.annotations nodes_key
      → (is_set s.server.claim.deletion_timestamp ≡ true → is_set new.deletion_timestamp ≡ true)
      → Stored s.server new t
      → Step s (record { server = t; actors = s.actors })

pub data Reach (start : System) : System → Type 0 where
  here : Reach start start
  next : {s t : System} → Reach start s → Step s t → Reach start t
