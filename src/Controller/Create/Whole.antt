-- ===== src/Controller/Create/Whole.antt =====
-- What a whole `CreateVolume` does to the cluster, and what it answers.
use subprovisioner.Base.{
  ℕ, Bool, true, false, if◌then◌else◌, String, ◌≡◌, refl, ◌⊎◌, ◌==◌, [], inl, inr,
}
use subprovisioner.Base.Dict
use subprovisioner.Base.Dict.{Dict}
use subprovisioner.Kube.Objects.{Pvc}
use subprovisioner.Kube.Errors.{Error, ok, err}
use subprovisioner.Kube.Calls.{Call, Event, event, History, get_pvc, patch_pvc}
use subprovisioner.Kube.Contract.{
  Lasting, Meets, Success, Saw, Meets-then, Meets-lift, Meets-ret, Meets-widen,
}
use subprovisioner.Kube.Prog.{Prog, call, lift, ◌>>=◌}
use subprovisioner.Kube.Libraries.{Libraries, IsLawful}
use subprovisioner.Common.Pvc.{strategic_merge_patch_pvc}
use subprovisioner.Controller.Capacity.{validate_capacity, Capacities}
use subprovisioner.Controller.Requests.{CreateVolumeRequest, CreateVolumeResponse}
use subprovisioner.Controller.Create.{
  Backing, mark_pvc, create_volume, get_parameter, check_capabilities, create_image,
}
use subprovisioner.Controller.Contents.{Place, MarksVolume, new_volume-MarksVolume}
use subprovisioner.Controller.Create.Order.{ImageOrder, Filled, Done, Meets-create_image}

module _ {ℓ κ} {A : Type ℓ} {B : Type κ} (Allowed : History → Call → Type 0)
    (Q : History → B → Type 0) where
  Meets-lift_if :
      (b : Bool) (e : Error) (a : A) (f : A → Prog B) (h : History)
      → Meets Allowed (Success Q) h (f a)
      → Meets Allowed (Success Q) h (lift (if b then err e else ok a) >>= f)
  unfolding Meets
  Meets-lift_if true e a f h rest = tt
  Meets-lift_if false e a f h rest = rest

module _ {ℓ} {B : Type ℓ} (Allowed : History → Call → Type 0) (Q : History → B → Type 0) where
  -- A program goes on with the value of a parameter, or fails.
  pub get_parameter-then :
      (parameters : Dict) (name : String) (f : String → Prog B) (h : History)
      → Meets Allowed (Success Q) h (f (Dict.get parameters name))
      → Meets Allowed (Success Q) h (lift (get_parameter parameters name) >>= f)
  unfolding get_parameter
  get_parameter-then parameters name =
      Meets-lift_if Allowed Q (Dict.get parameters name == "") _ (Dict.get parameters name)

module _ (image : String) (req : CreateVolumeRequest) where
  abbrev pub asked : String → String
  asked = Dict.get req.parameters

  abbrev pub name_of : String
  name_of = asked "csi.storage.k8s.io/pvc/name"

  abbrev pub namespace_of : String
  namespace_of = asked "csi.storage.k8s.io/pvc/namespace"

  abbrev pub asked_backing : Backing
  asked_backing = record {
    pvc_name = asked "backingClaimName";
    pvc_namespace = asked "backingClaimNamespace";
    base_path = asked "basePath";
  }

  abbrev pub asked_place : Place
  asked_place = record {
    claim = asked "backingClaimName";
    namespace = asked "backingClaimNamespace";
    path = asked "basePath";
  }

  abbrev pub PvcRead : Pvc → Event → Type 0
  PvcRead pvc (event (get_pvc n m) (ok read)) = (n ≡ namespace_of) × (m ≡ name_of) × (read ≡ pvc)
  PvcRead pvc _ = ⊥

  abbrev pub Marked : Pvc → Capacities → Event → Type 0
  Marked pvc capacities (event (patch_pvc n m patch) (ok _)) =
      (n ≡ namespace_of) × (m ≡ name_of) × MarksVolume patch asked_place pvc.uid capacities.capacity
  Marked pvc capacities _ = ⊥

  -- The claim was read, and the request is one that can be served.
  abbrev pub Accepted : Pvc → Capacities → History → Type 0
  Accepted pvc capacities h =
      Saw (PvcRead pvc) h
      × (validate_capacity req.capacity_range ≡ ok capacities)
      × (check_capabilities req.volume_capabilities ≡ ok tt)

  abbrev pub Ready : Pvc → Capacities → History → Type 0
  Ready pvc capacities h = Accepted pvc capacities h × Saw (Marked pvc capacities) h

  pub Ready-Lasting : (pvc : Pvc) (capacities : Capacities) → Lasting (Ready pvc capacities)
  Ready-Lasting pvc capacities h e ((read, valid, supported), marked) =
      ((inr read, valid, supported), inr marked)

  -- The calls before the image is made.
  abbrev pub MarkingOrder : History → Call → Type 0
  MarkingOrder h (get_pvc n m) = (n ≡ namespace_of) × (m ≡ name_of)
  MarkingOrder h (patch_pvc n m patch) =
      (n ≡ namespace_of)
      × (m ≡ name_of)
      × ((pvc : Pvc) × ((capacities : Capacities) × Accepted pvc capacities h
            × MarksVolume patch asked_place pvc.uid capacities.capacity))
  MarkingOrder h _ = ⊥

  abbrev pub CreationOrder : History → Call → Type 0
  CreationOrder h c =
      MarkingOrder h c
      ⊎ ((pvc : Pvc) × ((capacities : Capacities) × ImageOrder image asked_backing pvc
              (Ready pvc capacities) (Ready-Lasting pvc capacities) h c))

  abbrev pub Created : History → CreateVolumeResponse → Type 0
  Created h response =
      (pvc : Pvc) × ((capacities : Capacities) × Ready pvc capacities h
        × Filled image asked_backing pvc (Ready pvc capacities) (Ready-Lasting pvc capacities) h
        × (response.volume_id ≡ pvc.uid)
        × (response.capacity_bytes ≡ capacities.capacity)
        × (response.content_source ≡ req.volume_content_source))

  module _ (lib : Libraries) (law : IsLawful lib) (rounds : ℕ) where
    Meets-mark_pvc :
        (pvc : Pvc) (capacities : Capacities) (h : History)
        → Accepted pvc capacities h
        → Meets CreationOrder
            (Success (λ g (_ : Unit {0}). Ready pvc capacities g))
            h
            (mark_pvc lib rounds image name_of namespace_of asked_backing pvc capacities.capacity)
    unfolding Meets mark_pvc strategic_merge_patch_pvc
    Meets-mark_pvc pvc capacities h (read, valid, supported) =
        let marks = new_volume-MarksVolume asked_backing pvc capacities.capacity in
        (
          inl (refl, refl, (pvc, (capacities, (read, valid, supported), marks))),
          elim [ ok _ ↦ ((inr read, valid, supported), inl (refl, refl, marks)) | err e ↦ tt ],
        )

    Meets-make_image :
        (pvc : Pvc) (capacities : Capacities) (h : History)
        → Ready pvc capacities h
        → Meets CreationOrder
            (Success
              (Done image asked_backing pvc (Ready pvc capacities) (Ready-Lasting pvc capacities)))
            h
            (create_image lib rounds image asked_backing pvc capacities.capacity
              capacities.max_capacity req.volume_content_source)
    Meets-make_image pvc capacities h ready =
        Meets-widen _ _ (λ g c allowed. inr (pvc, (capacities, allowed))) _ h _
          (Meets-create_image image asked_backing pvc (Ready pvc capacities)
            (Ready-Lasting pvc capacities) rounds lib law capacities.capacity
            capacities.max_capacity h ready req.volume_content_source)

    Meets-read :
        (h : History)
        → Meets CreationOrder
            (Success (λ g pvc. Saw (PvcRead pvc) g))
            h
            (call (get_pvc namespace_of name_of) lift)
    unfolding Meets
    Meets-read h = (inl (refl, refl), elim [ ok pvc ↦ inl (refl, refl, refl) | err e ↦ tt ])

    -- Whatever the answers are: a volume's claim is patched only after it was read and the request's
    -- capacity range and capabilities were accepted, with the volume's uid, backing, validated
    -- capacity, idle state and cleanup finalizer together; the creation job runs for that uid and
    -- only after the server accepted that patch; the source of a clone is written only to claim it
    -- while it is idle, and is made idle again only after the job was read with a success; and if
    -- the request succeeds, the patch was accepted, the job had a success, and the answer carries the
    -- claim's uid, the validated capacity and the request's content source.
    pub create_volume_order :
        Meets CreationOrder (Success Created) [] (create_volume lib rounds image req)
    unfolding create_volume
    create_volume_order =
        get_parameter-then CreationOrder Created req.parameters "csi.storage.k8s.io/pvc/name" _ [] (
          get_parameter-then CreationOrder Created req.parameters "csi.storage.k8s.io/pvc/namespace"
            _ []
            (get_parameter-then CreationOrder Created req.parameters "backingClaimName" _ [] (
              get_parameter-then CreationOrder Created req.parameters "backingClaimNamespace" _ [] (
                Meets-then CreationOrder (λ g pvc. Saw (PvcRead pvc) g) Created [] _ _
                  (Meets-read [])
                  λ h pvc read.
                    Meets-then CreationOrder
                      (λ g capacities.
                        Saw (PvcRead pvc) g
                        × (validate_capacity req.capacity_range ≡ ok capacities))
                      Created h _ _
                      (Meets-lift CreationOrder _ h (validate_capacity req.capacity_range)
                        (λ _ valid. (read, valid)))
                      λ h₁ capacities valid.
                        Meets-then CreationOrder (λ g (_ : Unit {0}). Accepted pvc capacities g)
                          Created h₁ _ _
                          (Meets-lift CreationOrder _ h₁
                            (check_capabilities req.volume_capabilities)
                            (λ _ supported. (valid.0, valid.1, supported)))
                          λ h₂ _ accepted.
                            Meets-then CreationOrder (λ g (_ : Unit {0}). Ready pvc capacities g)
                              Created h₂ _ _ (Meets-mark_pvc pvc capacities h₂ accepted)
                              λ h₃ _ ready.
                                Meets-then CreationOrder _ Created h₃ _ _
                                  (Meets-make_image pvc capacities h₃ ready)
                                  λ h₄ _ done.
                                    Meets-ret CreationOrder Created h₄ _
                                      (pvc, (capacities, done.0, done.1, refl, refl, refl))))))
