-- ===== src/Cluster/Joining.antt =====
-- Two workers with the same purpose.
use mathlib.Core.Path.{subst, ap}
use mathlib.Core.Logic.{if_pos, if_neg}
use native.Mathlib.Decide.{ℕ_discrete}
use subprovisioner.Base.{ℕ, String, ◌≡◌, ◌≢◌, refl, sym, ◌∙◌, ◌==◌, true, false, [], ◌∷◌}
use subprovisioner.Kube.Errors.{ok}
use subprovisioner.Kube.Calls.{Call, Reply, event, get_pvc, patch_volume_snapshot}
use subprovisioner.Kube.Prog.{Prog, call}
use subprovisioner.Kube.Libraries.{Libraries, IsLawful}
use subprovisioner.Common.Pvc.{is_set}
use subprovisioner.Common.Pvc.Nodes.{state_of}
use subprovisioner.Common.Pvc.Exclusion.{Purpose, purpose_state}
use subprovisioner.Cluster.Going.{goes_on}
use subprovisioner.Cluster.Beginning.{
  Second, worker_of, Replaces, purpose_of, Creates, Leads, at_once, after_patch, second-Begins,
}
use subprovisioner.Cluster.{Actor, System, replace, Reach, here, next, act, Step, Answers}
use subprovisioner.Cluster.Roles.{Role, taker, Working}
use subprovisioner.Cluster.Workers.{Worker, role_of, work}
use subprovisioner.Cluster.Exclusive.{IsBusy}

abbrev pub NotTaker : Role → Type 0
NotTaker (taker _) = ⊥
NotTaker _ = Unit

pub not_taker : (role : Role) → NotTaker role → (purpose : Purpose) → role ≡ taker purpose → ⊥
not_taker role other purpose same = subst NotTaker same other

module _ (actors : ℕ → Actor) (i : ℕ) (actor : Actor) where
  pub replace_here : replace actors i actor i ≡ actor
  replace_here = if_pos (ℕ_discrete i i) refl actor (actors i)

  pub replace_other : (j : ℕ) → i ≢ j → replace actors i actor j ≡ actors j
  replace_other j differs = if_neg (ℕ_discrete i j) differs actor (actors j)

module _ (lib : Libraries) (law : IsLawful lib) (rounds : ℕ) (namespace name image : String)
    (worker : ℕ → Worker namespace name) where
  -- The server and worker `i`, which has the volume, are as before, and worker `j` is about to create
  -- its job.
  pub record Joined (s : System) (i j : ℕ) (second : Second namespace name) : Type 0 where
    pub later : System
    pub run : Reach s later
    pub untouched : later.server ≡ s.server
    pub kept : later.actors i ≡ s.actors i
    pub busy : IsBusy lib law rounds namespace name worker later i
    pub creates : Creates (Replaces image second) (later.actors j).program

  -- A step of worker `j` that leaves the server and worker `i` as they are.
  record Moved (s : System) (i j : ℕ) (program : Prog (Unit {0})) : Type 0 where
    after : System
    step : Step s after
    untouched : after.server ≡ s.server
    kept : after.actors i ≡ s.actors i
    goes_on_as : (after.actors j).program ≡ program

  move :
      (s : System) (i j : ℕ)
      → i ≢ j
      → (c : Call) (k : Reply c → Prog (Unit {0})) (r : Reply c) → (s.actors j).program ≡ call c k
      → Answers s.server c r s.server
      → Moved s i j (k r)
  move s i j differs c k r going answer =
      let actor : Actor = record { history = event c r ∷ (s.actors j).history; program = k r } in
      record {
        after = record { server = s.server; actors = replace s.actors j actor };
        step = act j c k r s.server going answer;
        untouched = refl;
        kept = replace_other s.actors j actor i (λ e. differs (sym e));
        goes_on_as = ap (λ (a : Actor). a.program) (replace_here s.actors j actor);
      }

  busy_kept :
      (s t : System) (i : ℕ)
      → t.actors i ≡ s.actors i
      → IsBusy lib law rounds namespace name worker s i
      → IsBusy lib law rounds namespace name worker t i
  busy_kept s t i kept =
      subst (λ (a : Actor). Working lib law namespace name (role_of (worker i)) a.history)
        (sym kept)

  -- After one step worker `j` leads to its job.
  Leads-Joined :
      (s : System) (i j : ℕ) (second : Second namespace name) (program : Prog (Unit {0}))
      → i ≢ j
      → IsBusy lib law rounds namespace name worker s i
      → Leads (Replaces image second) program
      → Moved s i j program
      → Joined s i j second
  Leads-Joined s i j second program differs busy (at_once creates) moved = record {
    later = moved.after;
    run = next here moved.step;
    untouched = moved.untouched;
    kept = moved.kept;
    busy = busy_kept s moved.after i moved.kept busy;
    creates = subst (Creates (Replaces image second)) (sym moved.goes_on_as) creates;
  }
  Leads-Joined s i j second program differs busy (after_patch n m patch k e creates) moved =
      let patched =
        move moved.after i j differs (patch_volume_snapshot n m patch) k (ok tt)
          (moved.goes_on_as ∙ e) refl in
      record {
        later = patched.after;
        run = next (next here moved.step) patched.step;
        untouched = patched.untouched ∙ moved.untouched;
        kept = patched.kept ∙ moved.kept;
        busy = busy_kept s patched.after i (patched.kept ∙ moved.kept) busy;
        creates = subst (Creates (Replaces image second)) (sym patched.goes_on_as) creates;
      }

  -- Take a point at which a worker has the volume, the claim is in the state for snapshots, or for
  -- clones, and is not being deleted, and another worker, which had made no call, is to snapshot, or
  -- to clone, the volume, whose capacity it knows, and to a size within the maximum. Then there is a
  -- run of a read and at most a patch of the snapshot object after which the claim and the
  -- first worker are as before, which has the volume still and may be at any point of its work, and the
  -- other one's next call creates its own job, which replaces the volume's image.
  pub same_purpose_joins :
      (s : System) (i j : ℕ) (second : Second namespace name)
      → i ≢ j
      → s.actors j
        ≡ record { history = []; program = work lib rounds namespace name (worker_of image second) }
      → (state_of s.server.claim == purpose_state (purpose_of second)) ≡ true
      → is_set s.server.claim.deletion_timestamp ≡ false
      → IsBusy lib law rounds namespace name worker s i
      → Joined s i j second
  same_purpose_joins s i j second differs begun state alive busy =
      let begins = second-Begins lib law rounds s.server.claim alive image second state in
      elim begins.goes [
        | goes_on k e ends ↦
            let moved =
              move s i j differs (get_pvc namespace name) k (ok s.server.claim)
                (ap (λ (a : Actor). a.program) begun ∙ e) (refl, refl) in
            Leads-Joined s i j second begins.rest differs busy begins.leads (record {
              after = moved.after;
              step = moved.step;
              untouched = moved.untouched;
              kept = moved.kept;
              goes_on_as = moved.goes_on_as ∙ ends;
            })
      ]
