-- ===== src/Controller/Expand/Whole.antt =====
-- What a whole `ControllerExpandVolume` does, and the capacity that it answers with.
use subprovisioner.Base.{
  ℕ, String, ◌<>◌, ◌≡◌, ◌⊎◌, refl, ◌==◌, not, ◌&&◌, Bool, true, false, some, [], ◌∷◌, inl, inr,
  if◌then◌else◌,
}
use subprovisioner.Base.Int.{ℤ, pos, eq_ℤ, ltb_ℤ, ltb-asym}
use subprovisioner.Base.Dict
use subprovisioner.Strconv.{parse_int}
use subprovisioner.Kube.Objects.{Pvc}
use subprovisioner.Kube.Errors.{ok, err}
use subprovisioner.Kube.Calls.{Call, Event, event, History, list_pvcs}
use subprovisioner.Kube.Contract.{
  Lasting, Meets, Success, Saw, Meets-then, Meets-lift, Meets-or_fail, Meets-if, Meets-ret,
  Meets-fail, Meets-weaken, Meets-widen, Meets-keeping, returned, failed, polling,
}
use subprovisioner.Kube.Libraries.{Libraries, IsLawful}
use subprovisioner.Common.Pvc.{find_pvc_by_label_selector}
use subprovisioner.Controller.Capacity.{Capacities, validate_capacity}
use subprovisioner.Controller.Contents.{IsLarger}
use subprovisioner.Controller.Create.{check_source_size}
use subprovisioner.Controller.Requests.{
  ControllerExpandVolumeRequest, ControllerExpandVolumeResponse,
}
use subprovisioner.Controller.Expand.{controller_expand_volume, expand_image, expanded_to}
use subprovisioner.Kube.Prog.{ret, ◌>>=◌}
use subprovisioner.Controller.Expand.Order.{ExpansionOrder, Recorded, Expanded, expand_image_order}

-- `a` holds, or else `b` does not.
unlimited_or : (a b : Bool) → (not a && b) ≡ false → (a ≡ true) ⊎ (b ≡ false)
unlimited_or true b within = inl refl
unlimited_or false b within = inr within

module _ (image : String) (req : ControllerExpandVolumeRequest) where
  abbrev pub search : String
  search = "subprovisioner.gitlab.io/uid=" <> req.volume_id

  -- The search of the volume's uid gave exactly one claim.
  abbrev pub PvcListed : Pvc → Event → Type 0
  PvcListed pvc (event (list_pvcs selector) (ok (found ∷ []))) = (selector ≡ search) × (found ≡ pvc)
  PvcListed pvc _ = ⊥

  -- A volume with its capacity, and the capacities that were asked for.
  pub record Target : Type 0 where
    pub pvc : Pvc
    pub current : ℤ
    pub capacities : Capacities

  -- The volume was found, its annotation is its capacity, and that is within the maximum.
  pub record Found (target : Target) (h : History) : Type 0 where
    pub listed : Saw (PvcListed target.pvc) h
    pub valid : validate_capacity req.capacity_range ≡ ok target.capacities
    pub annotated :
        parse_int (Dict.get target.pvc.annotations "subprovisioner.gitlab.io/capacity")
        ≡ some target.current
    pub within :
        (eq_ℤ target.capacities.max_capacity (pos 0) ≡ true)
        ⊎ (ltb_ℤ target.capacities.max_capacity target.current ≡ false)

  Found-Lasting : (target : Target) → Lasting (Found target)
  Found-Lasting target h e found = record {
    listed = inr found.listed;
    valid = found.valid;
    annotated = found.annotated;
    within = found.within;
  }

  -- A volume that was found and is too small is expanded to the capacity that was asked for.
  abbrev pub Growing : History → Call → Type 0
  Growing h c =
      (target : Target) × Found target h
      × (ltb_ℤ target.current target.capacities.capacity ≡ true)
      × ExpansionOrder image target.pvc target.capacities.capacity h c

  abbrev pub RequestOrder : History → Call → Type 0
  RequestOrder h (list_pvcs selector) = selector ≡ search
  RequestOrder h c = Growing h c

  abbrev pub Answered : History → ControllerExpandVolumeResponse → Type 0
  Answered h response =
      (target : Target) × Found target h
      × IsLarger target.current target.capacities.capacity response.capacity_bytes
      × (ltb_ℤ target.current target.capacities.capacity ≡ true
          → Saw (Recorded image target.pvc target.capacities.capacity) h)

  Growing-RequestOrder : (h : History) (c : Call) → Growing h c → RequestOrder h c
  Growing-RequestOrder h (list_pvcs selector) (target, found, small, allowed) = elim allowed [ ]
  Growing-RequestOrder h c growing = growing

  module _ (lib : Libraries) (law : IsLawful lib) (rounds : ℕ) where
    Meets-search :
        Meets RequestOrder
          (Success (λ g pvc. Saw (PvcListed pvc) g))
          []
          (find_pvc_by_label_selector search)
    unfolding Meets find_pvc_by_label_selector
    Meets-search = (
      refl,
      elim [ ok [] ↦ tt | ok (found ∷ []) ↦ inl (refl, refl) | ok (_ ∷ _ ∷ _) ↦ tt | err e ↦ tt ],
    )

    -- The comparison with the maximum lets the volume through, or fails.
    Meets-check :
        (target : Target) (h : History)
        → Saw (PvcListed target.pvc) h
        → validate_capacity req.capacity_range ≡ ok target.capacities
        → parse_int (Dict.get target.pvc.annotations "subprovisioner.gitlab.io/capacity")
          ≡ some target.current
        → Meets RequestOrder (Success (λ g (_ : Unit {0}). Found target g)) h (
            check_source_size "current volume capacity" target.current
              target.capacities.max_capacity)
    unfolding check_source_size
    Meets-check target h listed valid annotated =
        let Bounded : History → Unit {0} → Type 0 = λ g _. Found target g in
        Meets-if RequestOrder (Success Bounded) h
          (not (eq_ℤ target.capacities.max_capacity (pos 0))
            && ltb_ℤ target.capacities.max_capacity target.current)
          _ _ (λ _. Meets-fail RequestOrder Bounded h _)
          (λ within. Meets-ret RequestOrder Bounded h tt (record {
            listed = listed;
            valid = valid;
            annotated = annotated;
            within = unlimited_or _ _ within;
          }))

    Meets-expansion :
        (target : Target) (h : History)
        → Found target h
        → ltb_ℤ target.current target.capacities.capacity ≡ true
        → Meets RequestOrder
            (Success Answered)
            h
            (expand_image lib rounds image target.pvc target.capacities.capacity)
    Meets-expansion target h found small =
        Meets-weaken RequestOrder _ (Success Answered) h _
          (Meets-widen
            (λ g c. Found target g × ExpansionOrder image target.pvc target.capacities.capacity g c)
            RequestOrder
            (λ g c allowed. Growing-RequestOrder g c (target, allowed.0, small, allowed.1)) _ h _
            (Meets-keeping (Found target) (Found-Lasting target)
              (ExpansionOrder image target.pvc target.capacities.capacity)
              (Expanded image target.pvc target.capacities.capacity) h _ found
              (expand_image_order image target.pvc target.capacities.capacity lib law rounds h)))
          λ g. elim [
            | returned response ↦ λ done. (
              target,
              done.0,
              inr (done.1.1, ltb-asym target.current target.capacities.capacity small),
              λ _. done.1.0,
            )
            | failed e ↦ λ _. tt
            | polling ↦ λ _. tt
          ]

    -- From the comparison with the maximum on.
    Meets-bounded :
        (target : Target) (h : History)
        → Saw (PvcListed target.pvc) h
        → validate_capacity req.capacity_range ≡ ok target.capacities
        → parse_int (Dict.get target.pvc.annotations "subprovisioner.gitlab.io/capacity")
          ≡ some target.current
        → Meets RequestOrder (Success Answered) h (
            check_source_size "current volume capacity" target.current
              target.capacities.max_capacity
            >>= λ _.
                if ltb_ℤ target.current target.capacities.capacity
                then expand_image lib rounds image target.pvc target.capacities.capacity
                else ret (expanded_to target.current))
    Meets-bounded target h listed valid annotated =
        Meets-then RequestOrder (λ g _. Found target g) Answered h _ _
          (Meets-check target h listed valid annotated)
          λ g _ found.
            Meets-if RequestOrder (Success Answered) g
              (ltb_ℤ target.current target.capacities.capacity) _ _
              (λ small. Meets-expansion target g found small)
              (λ enough.
                Meets-ret RequestOrder Answered g _
                  (target, found, inl (refl, enough), λ small. cc))

    -- Whatever the answers are: only the claims that carry the volume's uid are searched for, and any
    -- other call is one of an expansion, to the validated capacity, of a claim that the search listed
    -- alone, whose annotated capacity is smaller than that and within the request's maximum. If the
    -- request succeeds, such a claim was found, the answer is the larger of its annotated and the
    -- validated capacity, and if the annotated one was smaller the server accepted the patch that
    -- records the new one: a volume never shrinks, and one that is large enough is left alone.
    pub controller_expand_volume_order :
        Meets RequestOrder (Success Answered) [] (controller_expand_volume lib rounds image req)
    unfolding controller_expand_volume
    controller_expand_volume_order =
        Meets-if RequestOrder (Success Answered) [] (req.volume_id == "") _ _
          (λ _. Meets-fail RequestOrder Answered [] _)
          λ _.
            Meets-then RequestOrder
              (λ h capacities. (h ≡ []) × (validate_capacity req.capacity_range ≡ ok capacities))
              Answered [] _ _
              (Meets-lift RequestOrder _ [] (validate_capacity req.capacity_range)
                (λ _ valid. (refl, valid)))
              λ h capacities valid. rw valid.0 (
                Meets-then RequestOrder (λ g pvc. Saw (PvcListed pvc) g) Answered [] _ _
                  Meets-search
                  λ h₁ pvc listed.
                    Meets-then RequestOrder
                      (λ g current.
                        Saw (PvcListed pvc) g
                        × (parse_int (Dict.get pvc.annotations "subprovisioner.gitlab.io/capacity")
                            ≡ some current))
                      Answered h₁ _ _
                      (Meets-or_fail RequestOrder _ h₁ _ _ (λ _ annotated. (listed, annotated)))
                      λ h₂ current annotated.
                        Meets-bounded
                          (record { pvc = pvc; current = current; capacities = capacities }) h₂
                          annotated.0 valid.1 annotated.1)
