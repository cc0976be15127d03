-- ===== src/Cluster/Invariant.antt =====
-- The invariant of a cluster: the claim is consistent, every read that was just made is fresh or outdated,
-- and the claim is in the state of every actor that works on the volume.
pub mod Cases
pub mod Calls
use mathlib.Core.Bool.{false≢true}
use mathlib.Core.Path.{subst, ap}
use mathlib.Core.Logic.{ite, if_pos, if_neg}
use native.Mathlib.Decide.{ℕ_discrete}
use subprovisioner.Base.Dict
use subprovisioner.Common.Pvc.{state_key, nodes_key}
use subprovisioner.Base.{
  ℕ, String, ◌≡◌, ◌≢◌, ◌⊎◌, refl, sym, ◌∙◌, ◌==◌, true, false, [], ◌∷◌, inl, inr, contains, eq_iff,
  arith,
}
use subprovisioner.Kube.Objects.{Pvc, MetaPatch}
use subprovisioner.Kube.Errors.{Result, ok, err}
use subprovisioner.Kube.Calls.{Call, Reply, Event, event, History, get_pvc, update_pvc, patch_pvc}
use subprovisioner.Kube.Contract.{Meets, Saw}
use subprovisioner.Kube.Prog.{Prog, call}
use subprovisioner.Kube.Libraries.{Libraries, IsLawful}
use subprovisioner.Common.Pvc.Nodes.{state_of, nodes_of}
use subprovisioner.Common.Pvc.Consistency.{IsConsistent}
use subprovisioner.Common.Pvc.Exclusion.{Purpose, purpose_state, Write-IsConsistent}
use subprovisioner.Cluster.Invariant.Cases.{
  read-HeldBy, quiet-HeldBy, HeldBy-mono, HeldBy-unique, patch-Working, patched-not-Working,
  Working-taker,
}
use subprovisioner.Cluster.{
  Server, IsMerged, Stored, stored, Answers, Actor, System, replace, Step, act, outside, Reach,
  here, next,
}
use subprovisioner.Cluster.Roles.{
  Role, taker, stager, unstager, remover, Working, RoleOrder, AnyEnd,
}
use subprovisioner.Cluster.Effects.{
  HeldBy, IsFresh, Known, update_effect, patch_effect, same_annotations-IsConsistent,
}

pub replace-cases :
    (P : ℕ → Actor → Type 0) (actors : ℕ → Actor) (i : ℕ) (actor : Actor) (j : ℕ)
    → P i actor
    → (i ≢ j → P j (actors j))
    → P j (replace actors i actor j)
replace-cases P actors i actor j this others = elim (ℕ_discrete i j) [
  | yes same ↦ rw (if_pos _ same) (subst (λ k. P k actor) same this)
  | no differs ↦ rw (if_neg _ differs) (others differs)
]

-- Where something in the history of an actor comes from, after a call of actor `j`.
pub replace-Saw :
    (P : Event → Type 0) (actors : ℕ → Actor) (j : ℕ) (e : Event) (program : Prog (Unit {0}))
    (i : ℕ)
    → Saw P
        (replace actors j
          (record { history = e ∷ (actors j).history; program = program })
          i).history
    → Saw P (actors i).history ⊎ ((i ≡ j) × P e)
replace-Saw P actors j e program i seen =
    replace-cases
      (λ l (a : Actor). i ≡ l → Saw P a.history → Saw P (actors i).history ⊎ ((i ≡ j) × P e)) actors
      j (record { history = e ∷ (actors j).history; program = program }) i
      (λ same seen. elim seen [
        | inl now ↦ inr (same, now)
        | inr before ↦ inl (subst (λ l. Saw P (actors l).history) (sym same) before)
      ])
      (λ _ _ before. inl before) refl seen

-- A new version changes neither the state nor the nodes.
stamp-HeldBy :
    (role : Role) (pvc : Pvc) (version : String)
    → HeldBy role pvc
    → HeldBy role (record pvc { resource_version = version })
stamp-HeldBy (taker purpose) pvc version held = held
stamp-HeldBy (stager _ _) pvc version held = tt
stamp-HeldBy (unstager _) pvc version held = tt
stamp-HeldBy remover pvc version held = tt

same_state-HeldBy :
    (role : Role) (old new : Pvc) → state_of new ≡ state_of old → HeldBy role old → HeldBy role new
same_state-HeldBy (taker purpose) old new state held = rw state held
same_state-HeldBy (stager _ _) old new state held = tt
same_state-HeldBy (unstager _) old new state held = tt
same_state-HeldBy remover old new state held = tt

stamp-IsConsistent :
    (pvc : Pvc) (version : String)
    → IsConsistent pvc
    → IsConsistent (record pvc { resource_version = version })
stamp-IsConsistent pvc version c = record { names = c.names; staged_nodes = c.staged_nodes }

-- A read stays fresh or becomes outdated when the server gives out a new version.
stamp-IsFresh :
    (s : Server) (new : Pvc) (version : String) (h : History)
    → contains s.used version ≡ false
    → IsFresh s h
    → IsFresh
        (record { claim = record new { resource_version = version }; used = version ∷ s.used })
        h
stamp-IsFresh s new version [] unused fresh = tt
stamp-IsFresh s new version (event (get_pvc _ _) (ok pvc) ∷ h) unused (used, same) =
    (ground arith, λ e. absurd (false≢true (sym unused ∙ ap (contains s.used) (sym e) ∙ used)))
stamp-IsFresh s new version (event (get_pvc _ _) (err _) ∷ h) unused fresh = tt
stamp-IsFresh s new version (event _ _ ∷ h) unused fresh = tt

module _ (lib : Libraries) (law : IsLawful lib) (namespace name : String) where
  pub record ActorInv (role : Role) (server : Server) (actor : Actor) : Type 0 where
    pub ordered : Meets (RoleOrder lib law namespace name role) AnyEnd actor.history actor.program
    pub fresh : IsFresh server actor.history
    pub held : Working lib law namespace name role actor.history → HeldBy role server.claim

  module _ (role : ℕ → Role) where
    pub record Inv (server : Server) (actors : ℕ → Actor) : Type 0 where
      pub consistent : IsConsistent server.claim
      pub current : contains server.used server.claim.resource_version ≡ true
      pub each : (i : ℕ) → ActorInv (role i) server (actors i)

    -- The cluster after a step in which actor `i` went on and the server stored a claim or did nothing.
    module _ (s : System) (inv : Inv s.server s.actors) (i : ℕ) (c : Call)
        (k : Reply c → Prog (Unit {0})) (r : Reply c)
        (going : (s.actors i).program ≡ call c k) where
      abbrev before : History
      before = (s.actors i).history

      abbrev went : ℕ → Actor
      went = replace s.actors i (record { history = event c r ∷ before; program = k r })

      -- The call is allowed, and the rest of the program is in order.
      pub went_on :
          RoleOrder lib law namespace name (role i) before c
          × ((r : Reply c)
              → Meets (RoleOrder lib law namespace name (role i)) AnyEnd (event c r ∷ before) (k r))
      unfolding Meets
      went_on =
          subst (Meets (RoleOrder lib law namespace name (role i)) AnyEnd before) going
            (inv.each i).ordered

      pub same_server :
          IsFresh s.server (event c r ∷ before)
          → (Working lib law namespace name (role i) (event c r ∷ before)
              → HeldBy (role i) s.server.claim)
          → Inv s.server went
      same_server fresh held = record {
        consistent = inv.consistent;
        current = inv.current;
        each = λ j.
            replace-cases (λ j a. ActorInv (role j) s.server a) s.actors i _ j
              (record { ordered = went_on.1 r; fresh = fresh; held = held }) (λ _. inv.each j);
      }

      pub Stored-server :
          (new : Pvc) (t : Server)
          → Stored s.server new t
          → IsConsistent new
          → ((server : Server) → IsFresh server (event c r ∷ before))
          → (Working lib law namespace name (role i) (event c r ∷ before) → HeldBy (role i) new)
          → ((j : ℕ)
              → i ≢ j
              → Working lib law namespace name (role j) (s.actors j).history
              → HeldBy (role j) new)
          → Inv t went
      Stored-server new t (stored version unused p) consistent fresh own others =
          let after : Server = record {
            claim = record new { resource_version = version };
            used = version ∷ s.server.used;
          } in
          subst (λ t. Inv t went) (sym p)
            (record {
              consistent = stamp-IsConsistent new version consistent;
              current = rw ((eq_iff version version).1 refl);
              each = λ j.
                  replace-cases (λ j a. ActorInv (role j) after a) s.actors i _ j
                    (record {
                      ordered = went_on.1 r;
                      fresh = fresh after;
                      held = λ working. stamp-HeldBy (role i) new version (own working);
                    })
                    (λ differs. record {
                      ordered = (inv.each j).ordered;
                      fresh =
                          stamp-IsFresh s.server new version (s.actors j).history unused
                            (inv.each j).fresh;
                      held =
                          λ working. stamp-HeldBy (role j) new version (others j differs working);
                    });
            })

    -- The claim changes, but neither of its two annotations, and no actor goes on.
    pub outside-Inv :
        (s : System) (new : Pvc) (t : Server)
        → Inv s.server s.actors
        → Dict.get new.annotations state_key ≡ Dict.get s.server.claim.annotations state_key
        → Dict.get new.annotations nodes_key ≡ Dict.get s.server.claim.annotations nodes_key
        → Stored s.server new t
        → Inv t s.actors
    outside-Inv s new t inv state nodes (stored version unused p) =
        let after : Server = record {
          claim = record new { resource_version = version };
          used = version ∷ s.server.used;
        } in
        subst (λ t. Inv t s.actors) (sym p)
          (record {
            consistent = stamp-IsConsistent new version (
                same_annotations-IsConsistent lib law namespace name s.server.claim new
                  (rw nodes refl) (ap (λ k. k == "staged") state) inv.consistent);
            current = rw ((eq_iff version version).1 refl);
            each = λ j. record {
              ordered = (inv.each j).ordered;
              fresh =
                  stamp-IsFresh s.server new version (s.actors j).history unused (inv.each j).fresh;
              held = λ working.
                  stamp-HeldBy (role j) new version (
                    same_state-HeldBy (role j) s.server.claim new state
                      ((inv.each j).held working));
            };
          })
