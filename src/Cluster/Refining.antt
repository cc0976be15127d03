-- ===== src/Cluster/Refining.antt =====
-- Each step of the cluster as a step of the abstract machine on a state and a set of nodes.
use mathlib.Core.Path.{ap}
use subprovisioner.Base.{ℕ, String, ◌∙◌, ◌⊎◌, refl, inl, inr, ◌≡◌}
use subprovisioner.Base.Dict
use subprovisioner.Kube.Libraries.{Libraries, IsLawful}
use subprovisioner.Common.NodeSet
use subprovisioner.Common.Pvc.{state_key, nodes_key}
use subprovisioner.Common.Pvc.Abstract.{View, view, Move, same-view, freed-Move}
use subprovisioner.Cluster.{System, Reach, Step}
use subprovisioner.Cluster.Changes.{Who, by, somebody, who, Respected, Step-change}
use subprovisioner.Cluster.Effects.{action_of}
use subprovisioner.Kube.Objects.{Pvc}
use subprovisioner.Cluster.Exclusive.{Apart, Start, end-Inv}
use subprovisioner.Cluster.Workers.{Worker, role_of}

-- What a step of somebody in the plugin, or of somebody else, may make of what the annotations say: the
-- plugin's is none or the action of its role, the other's is none.
abbrev pub Follows : Who → View → View → Type 0
Follows (by role) v w = (w ≡ v) ⊎ Move (action_of role) v w
Follows somebody v w = w ≡ v

kept : (who : Who) (pvc : Pvc) → Follows who (view pvc) (view pvc)
kept (by role) pvc = inl refl
kept somebody pvc = refl

module _ (lib : Libraries) (law : IsLawful lib) (namespace name : String) where
  follows : Respected lib law namespace name (λ who old new. Follows who (view old) (view new))
  follows = record {
    same = kept;
    stamped = λ who old new version step. step;
    updated = λ role old new consistent known. inr (known.6 consistent);
    freed = λ purpose old new patch consistent held merged idle. inr (
        freed-Move old new purpose held
          (merged.1 state_key ∙ (idle (Dict.get old.annotations state_key)).0)
          (ap NodeSet.string_list_to_set
            (merged.1 nodes_key ∙ (idle (Dict.get old.annotations nodes_key)).1)));
    from_outside = λ old new state nodes deleting.
        same-view old new state (ap NodeSet.string_list_to_set nodes);
  }

module _ (lib : Libraries) (law : IsLawful lib) (rounds : ℕ) (namespace name : String)
    (worker : ℕ → Worker namespace name) (apart : Apart worker) (s : System)
    (start : Start lib law rounds namespace name worker s) where
  -- Expansions, snapshots, clones, stagings, unstagings and deletions of one claim, at most one worker
  -- for each of the first three, from a consistent claim and no call made, however their calls
  -- interleave: each single step of a run makes of what the claim's two annotations say nothing, or what
  -- the role of the worker whose call it is asks of an abstract machine on a state and a set of nodes,
  -- without order or text. A worker that stages a node makes an idle or staged volume staged and puts the
  -- node into the set; one that unstages a node takes that node alone out of the set of a staged volume,
  -- which is idle if none is left; one that takes the volume for a purpose changes idle into that
  -- purpose's state, or back, and keeps the set; and the monitor's deletion, and anybody else, changes
  -- neither.
  pub cluster_refines :
      (t u : System)
      → Reach s t
      → (step : Step t u)
      → Follows (who (λ i. role_of (worker i)) step) (view t.server.claim) (view u.server.claim)
  cluster_refines t u run step =
      Step-change lib law namespace name (λ who old new. Follows who (view old) (view new))
        (follows lib law namespace name) (λ i. role_of (worker i))
        (end-Inv lib law rounds namespace name worker apart s t start run) step
