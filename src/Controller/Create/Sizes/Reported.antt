-- ===== src/Controller/Create/Sizes/Reported.antt =====
-- The size that `CreateVolume` annotates and answers with, beside that of the image.
use subprovisioner.Base.{ℕ, String, ◌≡◌, refl, [], inl, inr}
use subprovisioner.Kube.Objects.{Pvc}
use subprovisioner.Kube.Errors.{ok, err}
use subprovisioner.Kube.Calls.{History, get_pvc}
use subprovisioner.Kube.Contract.{
  Meets, Success, Saw, Meets-then, Meets-lift, Meets-ret, AnyCall, Meets-any, Meets-both,
}
use subprovisioner.Kube.Prog.{call, lift}
use subprovisioner.Kube.Libraries.{Libraries}
use subprovisioner.Common.Pvc.{strategic_merge_patch_pvc}
use subprovisioner.Controller.Capacity.{Capacities, validate_capacity}
use subprovisioner.Controller.Requests.{CreateVolumeRequest, CreateVolumeResponse}
use subprovisioner.Controller.Create.{check_capabilities, create_image, mark_pvc, create_volume}
use subprovisioner.Controller.Contents.{new_volume-MarksVolume}
use subprovisioner.Controller.Create.Sizes.{MadeFrom, Meets-create_image}
use subprovisioner.Controller.Create.Whole.{
  name_of, namespace_of, asked_backing, Marked, get_parameter-then,
}

module _ (image : String) (req : CreateVolumeRequest) where
  -- The claim was marked with the validated capacity and the answer carries it; the job makes the
  -- image from the source with the larger size, if there is a source.
  pub record Reported (h : History) (response : CreateVolumeResponse) : Type 0 where
    pub pvc : Pvc
    pub capacities : Capacities
    pub valid : validate_capacity req.capacity_range ≡ ok capacities
    pub marked : Saw (Marked image req pvc capacities) h
    pub made :
        MadeFrom image (asked_backing image req) pvc req.volume_content_source capacities.capacity h
    pub answered : response.capacity_bytes ≡ capacities.capacity

  module _ (lib : Libraries) (rounds : ℕ) where
    Meets-mark :
        (pvc : Pvc) (capacities : Capacities) (h : History)
        → Meets AnyCall (Success (λ g (_ : Unit {0}). Saw (Marked image req pvc capacities) g)) h (
            mark_pvc lib rounds image
              (name_of image req)
              (namespace_of image req)
              (asked_backing image req)
              pvc
              capacities.capacity)
    unfolding Meets mark_pvc strategic_merge_patch_pvc
    Meets-mark pvc capacities h = (
      tt,
      elim [
        | ok _ ↦
            inl
              (refl, refl, new_volume-MarksVolume (asked_backing image req) pvc capacities.capacity)
        | err e ↦ tt
      ],
    )

    Meets-image :
        (pvc : Pvc) (capacities : Capacities) (h : History)
        → Saw (Marked image req pvc capacities) h
        → Meets AnyCall
            (Success (λ g (_ : Unit {0}).
              Saw (Marked image req pvc capacities) g
              × MadeFrom image
                  (asked_backing image req)
                  pvc
                  req.volume_content_source
                  capacities.capacity
                  g))
            h
            (create_image lib rounds image
              (asked_backing image req)
              pvc
              capacities.capacity
              capacities.max_capacity
              req.volume_content_source)
    Meets-image pvc capacities h marked =
        let backing = asked_backing image req in
        let program =
          create_image lib rounds image backing pvc capacities.capacity capacities.max_capacity
            req.volume_content_source in
        Meets-both (λ g (_ : Unit {0}). Saw (Marked image req pvc capacities) g)
          (λ g (_ : Unit {0}).
            MadeFrom image backing pvc req.volume_content_source capacities.capacity g)
          h program
          (Meets-any (Saw (Marked image req pvc capacities)) (λ _ _. inr) h program marked)
          (Meets-create_image image backing pvc lib rounds capacities.capacity
            capacities.max_capacity req.volume_content_source h)

    -- Whatever the answers are, and whether the volume is made from nothing, from a volume or from a
    -- snapshot: a creation that returns has had a patch accepted that annotates the claim with the
    -- validated capacity of the request, and it answers with that capacity; while it submitted a
    -- creation job, which the server accepted or had under this name already, whose command makes the
    -- image from nothing or from that source, and is given that capacity or, with a source, the larger
    -- of it and the source's own size.
    pub create_volume_sizes :
        Meets AnyCall (Success Reported) [] (create_volume lib rounds image req)
    unfolding create_volume
    create_volume_sizes =
        get_parameter-then AnyCall Reported req.parameters "csi.storage.k8s.io/pvc/name" _ [] (
          get_parameter-then AnyCall Reported req.parameters "csi.storage.k8s.io/pvc/namespace" _ []
            (get_parameter-then AnyCall Reported req.parameters "backingClaimName" _ [] (
              get_parameter-then AnyCall Reported req.parameters "backingClaimNamespace" _ [] (
                Meets-then AnyCall (λ _ (_ : Pvc). Unit {0}) Reported [] _ _
                  (Meets-any (λ _. Unit {0}) (λ _ _ _. tt) []
                    (call (get_pvc (namespace_of image req) (name_of image req)) lift) tt)
                  λ h pvc _.
                    Meets-then AnyCall
                      (λ _ capacities. validate_capacity req.capacity_range ≡ ok capacities)
                      Reported h _ _
                      (Meets-lift AnyCall _ h (validate_capacity req.capacity_range)
                        (λ _ valid. valid))
                      λ h₁ capacities valid.
                        Meets-then AnyCall (λ _ (_ : Unit {0}). Unit {0}) Reported h₁ _ _
                          (Meets-lift AnyCall _ h₁ (check_capabilities req.volume_capabilities)
                            (λ _ _. tt))
                          λ h₂ _ _.
                            Meets-then AnyCall _ Reported h₂ _ _ (Meets-mark pvc capacities h₂)
                              λ h₃ _ marked.
                                Meets-then AnyCall _ Reported h₃ _ _
                                  (Meets-image pvc capacities h₃ marked)
                                  λ h₄ _ done. Meets-ret AnyCall Reported h₄ _ (record {
                                    pvc = pvc;
                                    capacities = capacities;
                                    valid = valid;
                                    marked = done.0;
                                    made = done.1;
                                    answered = refl;
                                  })))))
