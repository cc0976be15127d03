-- ===== src/Common/Pvc/Staging.antt =====
-- `StagePvcOnNode` and `UnstagePvcFromNode`: which claims they write, and after which read.
use subprovisioner.Base.{String, ◌≡◌, refl, false, Option, none, some, ◌∷◌, inl}
use subprovisioner.Kube.Objects.{Pvc}
use subprovisioner.Kube.Errors.{ok, err}
use subprovisioner.Kube.Calls.{Call, Event, event, History, get_pvc, update_pvc, back_off}
use subprovisioner.Kube.Prog.{Prog, call, lift, ◌>>=◌}
use subprovisioner.Kube.Contract.{Lasting, Meets, Success, Saw, Meets-if, Meets-then}
use subprovisioner.Kube.Libraries.{Libraries, IsLawful}
use subprovisioner.Kube.Retries.{Renewed, Meets-retry}
use subprovisioner.Common.Pvc.{
  is_set, staged_on, stage_refusal, enter_staged, stage_pvc_attempt, stage_pvc_on_node,
  unstaged_from, unstage_pvc_attempt, unstage_pvc_from_node,
}
use subprovisioner.Common.Pvc.Nodes.{state_of}

-- Reads of one claim, and writes of a changed claim right after a read of an acceptable one.
module _ (namespace name : String) (Accepts : Pvc → Type 0) (change : Pvc → Pvc) where
  abbrev pub IsChange : History → Pvc → Type 0
  IsChange (event (get_pvc n m) (ok pvc) ∷ _) written =
      (n ≡ namespace) × (m ≡ name) × Accepts pvc × (written ≡ change pvc)
  IsChange _ _ = ⊥

  abbrev pub ChangeOrder : History → Call → Type 0
  ChangeOrder h (get_pvc n m) = (n ≡ namespace) × (m ≡ name)
  ChangeOrder h (update_pvc n written) = (n ≡ namespace) × IsChange h written
  ChangeOrder h back_off = Unit
  ChangeOrder h _ = ⊥

  -- A changed claim was written, and the server accepted it.
  abbrev pub Changed : Event → Type 0
  Changed (event (update_pvc n written) (ok _)) =
      (n ≡ namespace) × ((pvc : Pvc) × Accepts pvc × (written ≡ change pvc))
  Changed _ = ⊥

  module _ (Allowed : History → Call → Type 0) (Keeps : History → Type 0) (lasting : Lasting Keeps)
      (within : (h : History) (c : Call) → Keeps h → ChangeOrder h c → Allowed h c) where
    abbrev pub Done : History → Unit {0} → Type 0
    Done g _ = Keeps g × Saw Changed g

    Meets-write :
        (h : History) (pvc : Pvc)
        → Accepts pvc
        → Keeps (event (get_pvc namespace name) (ok pvc) ∷ h)
        → Meets Allowed
            (Renewed Allowed Keeps (Success Done))
            (event (get_pvc namespace name) (ok pvc) ∷ h)
            (call (update_pvc namespace (change pvc)) lift)
    unfolding Meets
    Meets-write h pvc accepted keeps = (
      within _ _ keeps (refl, (refl, refl, accepted, refl)),
      elim [
        | ok _ ↦
            let kept = lasting _ (event (update_pvc namespace (change pvc)) (ok tt)) keeps in
            ((kept, inl (refl, (pvc, accepted, refl))), kept)
        | err e ↦ (tt, lasting _ (event (update_pvc namespace (change pvc)) (err e)) keeps)
      ],
    )

module _ (namespace name node : String) (lib : Libraries) (law : IsLawful lib) where
  -- The claims that may be staged: not being deleted, and idle or staged.
  abbrev pub MayStage : Pvc → Type 0
  MayStage pvc = (is_set pvc.deletion_timestamp ≡ false) × (stage_refusal (state_of pvc) ≡ none)

  abbrev pub AnyPvc : Pvc → Type 0
  AnyPvc pvc = Unit

  abbrev pub StageOrder : History → Call → Type 0
  StageOrder = ChangeOrder namespace name MayStage (staged_on lib node)

  abbrev pub StageDone : Event → Type 0
  StageDone = Changed namespace name MayStage (staged_on lib node)

  abbrev pub UnstageOrder : History → Call → Type 0
  UnstageOrder = ChangeOrder namespace name AnyPvc (unstaged_from lib node)

  abbrev pub UnstageDone : Event → Type 0
  UnstageDone = Changed namespace name AnyPvc (unstaged_from lib node)

  module _ (Allowed : History → Call → Type 0) (Keeps : History → Type 0)
      (lasting : Lasting Keeps) where
    abbrev pub Staged : History → Unit {0} → Type 0
    Staged g _ = Keeps g × Saw StageDone g

    Meets-enter_staged :
        ((h : History) (c : Call) → Keeps h → StageOrder h c → Allowed h c)
        → (h : History) (pvc : Pvc) (refusal : Option String)
        → Keeps (event (get_pvc namespace name) (ok pvc) ∷ h)
        → is_set pvc.deletion_timestamp ≡ false
        → stage_refusal (state_of pvc) ≡ refusal
        → Meets Allowed
            (Renewed Allowed Keeps (Success Staged))
            (event (get_pvc namespace name) (ok pvc) ∷ h)
            (enter_staged lib namespace node pvc refusal)
    unfolding enter_staged
    Meets-enter_staged within h pvc (some message) keeps alive refused = unfold Meets in (tt, keeps)
    Meets-enter_staged within h pvc none keeps alive accepted =
        Meets-write namespace name MayStage (staged_on lib node) Allowed Keeps lasting within h pvc
          (alive, accepted) keeps

    Meets-stage_attempt :
        ((h : History) (c : Call) → Keeps h → StageOrder h c → Allowed h c)
        → (h : History) → Keeps h
        → Meets Allowed
            (Renewed Allowed Keeps (Success Staged))
            h
            (stage_pvc_attempt lib name namespace node)
    unfolding Meets stage_pvc_attempt
    Meets-stage_attempt within h keeps = (
      within h _ keeps (refl, refl),
      elim [
        | err e ↦ (tt, lasting h (event (get_pvc namespace name) (err e)) keeps)
        | ok pvc ↦
            let read = event (get_pvc namespace name) (ok pvc) in
            let post = Renewed Allowed Keeps (Success Staged) in
            let kept : Keeps (read ∷ h) = lasting h read keeps in
            Meets-if Allowed post (read ∷ h) (is_set pvc.deletion_timestamp) _ _ (λ _. (tt, kept))
              λ alive. Meets-enter_staged within h pvc _ kept alive refl
      ],
    )

    pub Meets-stage_pvc_on_node :
        ((h : History) (c : Call) → Keeps h → StageOrder h c → Allowed h c)
        → (h : History) → Keeps h
        → Meets Allowed (Success Staged) h (stage_pvc_on_node lib name namespace node)
    unfolding stage_pvc_on_node
    Meets-stage_pvc_on_node within =
        Meets-retry Allowed Keeps (Success Staged) (λ g kept. within g back_off kept tt)
          (λ g. lasting g (event back_off tt)) lib law _ (Meets-stage_attempt within)

    -- Staging, in front of the rest of a program.
    pub stage_pvc_on_node-then {ℓ} :
        {B : Type ℓ} (Q : History → B → Type 0)
        → ((h : History) (c : Call) → Keeps h → StageOrder h c → Allowed h c)
        → (f : Unit {0} → Prog B) (h : History) → Keeps h
        → ((g : History) → Keeps g → Saw StageDone g → Meets Allowed (Success Q) g (f tt))
        → Meets Allowed (Success Q) h (stage_pvc_on_node lib name namespace node >>= f)
    stage_pvc_on_node-then Q within f h keeps rest =
        Meets-then Allowed Staged Q h _ f (Meets-stage_pvc_on_node within h keeps)
          λ g _ at. rest g at.0 at.1

    abbrev pub Unstaged : History → Unit {0} → Type 0
    Unstaged g _ = Keeps g × Saw UnstageDone g

    Meets-unstage_attempt :
        ((h : History) (c : Call) → Keeps h → UnstageOrder h c → Allowed h c)
        → (h : History) → Keeps h
        → Meets Allowed
            (Renewed Allowed Keeps (Success Unstaged))
            h
            (unstage_pvc_attempt lib name namespace node)
    unfolding Meets unstage_pvc_attempt
    Meets-unstage_attempt within h keeps = (
      within h _ keeps (refl, refl),
      elim [
        | err e ↦ (tt, lasting h (event (get_pvc namespace name) (err e)) keeps)
        | ok pvc ↦
            Meets-write namespace name AnyPvc (unstaged_from lib node) Allowed Keeps lasting within
              h pvc tt (lasting h (event (get_pvc namespace name) (ok pvc)) keeps)
      ],
    )

    pub Meets-unstage_pvc_from_node :
        ((h : History) (c : Call) → Keeps h → UnstageOrder h c → Allowed h c)
        → (h : History) → Keeps h
        → Meets Allowed (Success Unstaged) h (unstage_pvc_from_node lib name namespace node)
    unfolding unstage_pvc_from_node
    Meets-unstage_pvc_from_node within =
        Meets-retry Allowed Keeps (Success Unstaged) (λ g kept. within g back_off kept tt)
          (λ g. lasting g (event back_off tt)) lib law _ (Meets-unstage_attempt within)
