-- ===== src/Scripts/Replacing.antt =====
-- From the overlays on the ancestor to the end of a script: the `mv` that replaces the source.
pub mod Linking
use mathlib.Core.Path.{subst, ap}
use mathlib.Core.Option.{some-injective}
use subprovisioner.Base.{
  ℕ, zero, suc, String, ◌≡◌, ◌≢◌, refl, sym, ◌∙◌, Bool, true, false, Option, none, some, List, [],
  ◌∷◌, inl, inr, Bool-cases,
}
use subprovisioner.Scripts.{
  Image, Directory, Command, link, create, move, protect, in_backing, overlay, IsSame, Written,
  Effect, Behaves, Tools, IsDocumented, run_script,
}
use subprovisioner.Scripts.Chain.{lay, Content, Shows, over, PathShows, Shows-kept, Shows-weaken}
use subprovisioner.Scripts.Running.{run_script-step, success_Effect, failure_Remains}
use subprovisioner.Scripts.Ready.{
  outcome-Ready, Apart, Ready, IsSeparate, same-Ready, written-Ready, Written-elsewhere,
}

pub same-PathShows :
    (d e : Directory) (path : String) (content : Content)
    → IsSame d e
    → PathShows d path content
    → PathShows e path content
same-PathShows d e path content (names, images) (file, at, shows) = (
  file,
  names path ∙ at,
  Shows-kept d e (λ _. Unit {0}) (λ path _. names path) (λ _. Unit {0}) (λ file _. images file)
      (λ _ _ _ _. tt) file content tt shows,
)

module _ (source ancestor : String) (Own : String → Type 0) where
  -- At the path is an overlay on the ancestor that nothing was written to.
  abbrev pub Laid : Directory → String → Type 0
  Laid d path = (file : ℕ) × (d.names path ≡ some file) × (d.images file ≡ overlay ancestor)

  -- A fresh overlay shows what the ancestor shows.
  overlay-PathShows :
      (d : Directory) (path : String) (content : Content) (under : ℕ)
      → Laid d path
      → d.names (in_backing ancestor) ≡ some under
      → Shows d (λ _. Unit {0}) under content
      → PathShows d path content
  overlay-PathShows d path content under (file, at, image) named shows = (
    file,
    at,
    subst (λ (image : Image). Shows d (λ _. Unit {0}) file (lay image.layer content)) image
        (over file under ancestor content (ap (λ (image : Image). image.backing) image) tt named
          shows),
  )

  module _ (content : Content) (new : String) (Target : String → Type 0) where
    -- After the `ln`, with overlays at the targets.
    pub record Prepared (d : Directory) : Type 0 where
      pub ready : Ready source ancestor Own content d
      pub linked : d.names (in_backing ancestor) ≡ d.names source
      pub laid : (path : String) → Target path → Laid d path

    -- The source always shows the content; after a success, so do the ancestor and the targets.
    pub record Good (r : Directory × Bool) : Type 0 where
      pub source_shows : PathShows r.0 source content
      pub rest :
          r.1 ≡ true
          → PathShows r.0 (in_backing ancestor) content
            × ((path : String) → Target path → PathShows r.0 path content)

    abbrev AllShow : Directory → Type 0
    AllShow d =
        PathShows d source content
        × PathShows d (in_backing ancestor) content
        × ((path : String) → Target path → PathShows d path content)

    pub Ready-PathShows :
        (d : Directory) → Ready source ancestor Own content d → PathShows d source content
    Ready-PathShows d ready =
        (ready.file, ready.there, Shows-weaken d _ ready.file content ready.shows)

    pub failed-Good : (d : Directory) → Ready source ancestor Own content d → Good (d, false)
    failed-Good d ready = record { source_shows = Ready-PathShows d ready; rest = λ e. cc }

    module _ (exec : Tools) (documented : IsDocumented exec) where
      same-AllShow : (d e : Directory) → IsSame d e → AllShow d → AllShow e
      same-AllShow d e same (source_shows, ancestor_shows, targets_show) = (
        same-PathShows d e source content same source_shows,
        same-PathShows d e (in_backing ancestor) content same ancestor_shows,
        λ path target. same-PathShows d e path content same (targets_show path target),
      )

      AllShow-Good : (d : Directory) → AllShow d → (success : Bool) → Good (d, success)
      AllShow-Good d (source_shows, ancestor_shows, targets_show) success = record {
        source_shows = source_shows;
        rest = λ _. (ancestor_shows, targets_show);
      }

      nil-Good : (stop : ℕ) (d : Directory) → AllShow d → Good (run_script exec stop [] d)
      unfolding run_script
      nil-Good zero d all = AllShow-Good d all false
      nil-Good (suc stop) d all = AllShow-Good d all true

      protect-Good :
          (stop : ℕ) (path : String) (d : Directory)
          → AllShow d
          → Good (run_script exec stop (protect path ∷ []) d)
      protect-Good stop path d all =
          let after = exec (protect path) d in
          run_script-step exec Good stop (protect path) [] d (AllShow-Good d all false)
            (λ failure.
              AllShow-Good after.0
                (same-AllShow d after.0 (failure_Remains exec documented (protect path) d failure)
                  all)
                false)
            (λ success stop. nil-Good stop after.0 (
              same-AllShow d after.0 (success_Effect exec documented (protect path) d success) all))

      module _ (separate : IsSeparate source ancestor Own) (own_new : Own new)
          (targets : (path : String) → Target path → Own path × (path ≢ new)) where
        -- The `mv` puts the overlay at `new` in the source's place.
        moved-AllShow :
            (d e : Directory) → Prepared d → Laid d new → Effect d e (move new source) → AllShow e
        moved-AllShow d e prepared (file, at, image) (moved, from, here, gone, names, images) =
            let ready = prepared.ready in
            let same_file : moved ≡ file = some-injective _ _ (sym from ∙ at) in
            let ancestor_kept : e.names (in_backing ancestor) ≡ some ready.file =
              names (in_backing ancestor) (λ e. separate.own_ancestor new own_new (sym e))
                (λ e. separate.source_ancestor (sym e))
              ∙ prepared.linked
              ∙ ready.there in
            let under : Shows e (Apart source ancestor Own) ready.file content =
              Shows-kept d e (Apart source ancestor Own)
                (λ path apart. names path (λ e. apart.2 (subst Own (sym e) own_new)) apart.0)
                (λ _. Unit {0}) (λ file _. images file) (λ _ _ _ _. tt) ready.file content tt
                ready.shows in
            let any = Shows-weaken e _ ready.file content under in
            (
              overlay-PathShows e source content ready.file
                  (file, here ∙ ap some same_file, images file ∙ image) ancestor_kept any,
              (ready.file, ancestor_kept, any),
              λ path target.
                  let (own, differs) = targets path target in
                  let (other, laid_at, laid_image) = prepared.laid path target in
                  overlay-PathShows e path content ready.file
                    (
                      other,
                      names path differs (separate.own_source path own) ∙ laid_at,
                      images other ∙ laid_image,
                    )
                    ancestor_kept any,
            )

        move-Good :
            (stop : ℕ) (d : Directory)
            → Prepared d
            → Laid d new
            → Good (run_script exec stop (move new source ∷ protect (in_backing ancestor) ∷ []) d)
        move-Good stop d prepared laid =
            let after = exec (move new source) d in
            run_script-step exec Good stop (move new source) (protect (in_backing ancestor) ∷ []) d
              (failed-Good d prepared.ready)
              (λ failure. failed-Good after.0 (
                same-Ready source ancestor Own separate content d after.0 prepared.ready
                  (failure_Remains exec documented (move new source) d failure)))
              (λ success stop. protect-Good stop (in_backing ancestor) after.0 (
                moved-AllShow d after.0 prepared laid
                  (success_Effect exec documented (move new source) d success)))

        -- An overlay that was just made.
        Written-Laid :
            (d e : Directory) (path : String) (write : Written d e path)
            → e.images write.file ≡ overlay ancestor
            → Laid e path
        Written-Laid d e path write image = (write.file, write.named.0, image)

        -- The others stay.
        kept-Laid :
            (d e : Directory) (path other : String)
            → Ready source ancestor Own content d
            → Own path
            → Written d e path
            → other ≢ path
            → Laid d other
            → Laid e other
        kept-Laid d e path other ready own write differs (file, at, image) = (
          file,
          write.named.1 other differs ∙ at,
          write.rest file (λ same.
                Written-elsewhere source ancestor Own separate content d e ready path own write
                  other differs (at ∙ ap some same))
              ∙ image,
        )

        pub linked_kept :
            (d e : Directory) (path : String)
            → Own path
            → Written d e path
            → d.names (in_backing ancestor) ≡ d.names source
            → e.names (in_backing ancestor) ≡ e.names source
        linked_kept d e path own write linked =
            write.named.1 (in_backing ancestor) (λ e. separate.own_ancestor path own (sym e))
            ∙ linked
            ∙ sym (write.named.1 source (λ e. separate.own_source path own (sym e)))

        pub create_new-Good :
            (stop : ℕ) (size : Option String) (d : Directory)
            → Prepared d
            → Good (
                run_script exec stop
                  (create ancestor new size ∷ move new source ∷ protect (in_backing ancestor) ∷ [])
                  d)
        create_new-Good stop size d prepared =
            let c = create ancestor new size in
            let after = exec c d in
            let ready = prepared.ready in
            run_script-step exec Good stop c _ d (failed-Good d ready)
              (λ failure. failed-Good after.0 (
                outcome-Ready source ancestor Own separate content exec documented c d after.0 false
                  (refl, own_new) (failure_Remains exec documented c d failure) ready))
              (λ success stop.
                let (write, image) = success_Effect exec documented c d success in
                move-Good stop after.0
                  (record {
                    ready =
                        written-Ready source ancestor Own separate content d after.0 ready new
                          own_new write;
                    linked = linked_kept d after.0 new own_new write prepared.linked;
                    laid = λ path target.
                        kept-Laid d after.0 new path ready own_new write (targets path target).1
                          (prepared.laid path target);
                  })
                  (Written-Laid d after.0 new write image))
