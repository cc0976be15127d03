-- ===== src/Scripts/Ready.antt =====
-- Directories on which a script can run, and the commands up to the `mv`.
use mathlib.Core.Path.{subst, ap}
use mathlib.Core.Option.{some-injective}
use mathlib.Core.Bool.{false≢true}
use subprovisioner.Base.{
  ℕ, zero, suc, ◌≤◌, String, ◌≡◌, ◌≢◌, sym, ◌∙◌, ◌==◌, Bool, true, false, some, List, [], ◌∷◌, ◌⊎◌,
  inl, inr, Bool-cases, eq_iff,
}
use subprovisioner.Scripts.{
  Directory, Command, link, create, move, protect, in_backing, IsSame, Named, Written, Behaves,
  Tools, IsDocumented, run_script, run_scripts,
}
use subprovisioner.Scripts.Chain.{Content, Shows, Shows-kept}

pub same_or_not : (one other : String) → (one ≡ other) ⊎ (one ≢ other)
same_or_not one other = elim (Bool-cases (one == other)) [
  | inl same ↦ inl ((eq_iff one other).0 same)
  | inr differs ↦ inr (λ e. false≢true (sym differs ∙ (eq_iff one other).1 e))
]

abbrev pub AllUpTo : ℕ → List ℕ → Type 0
AllUpTo bound [] = Unit
AllUpTo bound (n ∷ rest) = (n ≤ bound) × AllUpTo bound rest

-- `source` is to be replaced by an overlay on `ancestor`. `Own` holds of the paths that the script
-- makes images at.
module _ (source ancestor : String) (Own : String → Type 0) where
  abbrev pub Apart : String → Type 0
  Apart path = (path ≢ source) × (path ≢ in_backing ancestor) × ¬ Own path

  -- The source shows `content`, without the help of a path that the script changes, and what there is
  -- at an own path is at no other path.
  pub record Ready (content : Content) (d : Directory) : Type 0 where
    pub file : ℕ
    pub there : d.names source ≡ some file
    pub shows : Shows d Apart file content
    pub alone :
        (path : String)
        → Own path
        → (own : ℕ) → d.names path ≡ some own
        → (other : String) → other ≢ path
        → ¬ (d.names other ≡ some own)

  pub record IsSeparate : Type 0 where
    pub source_ancestor : source ≢ in_backing ancestor
    pub own_source : (path : String) → Own path → path ≢ source
    pub own_ancestor : (path : String) → Own path → path ≢ in_backing ancestor

  abbrev pub IsMild : Command → Type 0
  IsMild (link old new) = (old ≡ source) × (new ≡ in_backing ancestor)
  IsMild (create backing path size) = (backing ≡ ancestor) × Own path
  IsMild (move old new) = ⊥
  IsMild (protect path) = ⊥

  module _ (separate : IsSeparate) (content : Content) (d e : Directory)
      (ready : Ready content d) where
    -- A path outside of the script's own keeps its file, and so does the source.
    pub same-Ready : IsSame d e → Ready content e
    same-Ready (names, images) = record {
      file = ready.file;
      there = names source ∙ ready.there;
      shows =
          Shows-kept d e Apart (λ path _. names path) (λ _. Unit {0}) (λ file _. images file)
            (λ _ _ _ _. tt) ready.file content tt ready.shows;
      alone = λ path own file at other differs elsewhere.
          ready.alone path own file (sym (names path) ∙ at) other differs
            (sym (names other) ∙ elsewhere);
    }

    link-Ready :
        Named d e (in_backing ancestor) ready.file
        → ((other : ℕ) → e.images other ≡ d.images other)
        → Ready content e
    link-Ready (linked, names) images = record {
      file = ready.file;
      there = names source separate.source_ancestor ∙ ready.there;
      shows =
          Shows-kept d e Apart (λ path apart. names path apart.1) (λ _. Unit {0})
            (λ file _. images file) (λ _ _ _ _. tt) ready.file content tt ready.shows;
      alone = λ path own file at other differs elsewhere.
          let own_path = separate.own_ancestor path own in
          let before : d.names path ≡ some file = sym (names path own_path) ∙ at in
          elim (same_or_not other (in_backing ancestor)) [
            | inl same ↦
                let file_source : ready.file ≡ file =
                  some-injective _ _ (sym linked ∙ ap e.names (sym same) ∙ elsewhere) in
                ready.alone path own file before source (λ e. separate.own_source path own (sym e))
                  (ready.there ∙ ap some file_source)
            | inr other_path ↦
                ready.alone path own file before other differs
                  (sym (names other other_path) ∙ elsewhere)
          ];
    }

    -- What is written at an own path was at no other path.
    pub Written-elsewhere :
        (path : String)
        → Own path
        → (write : Written d e path) → (other : String) → other ≢ path
        → ¬ (d.names other ≡ some write.file)
    Written-elsewhere path own write other differs elsewhere = elim write.which [
      | inl old ↦ ready.alone path own write.file old other differs elsewhere
      | inr new ↦ new other elsewhere
    ]

    Written-alone :
        (path : String)
        → Own path
        → (write : Written d e path) → (one : String) → Own one
        → (file : ℕ) → e.names one ≡ some file
        → (other : String) → other ≢ one
        → ¬ (e.names other ≡ some file)
    Written-alone path own write one own_one file at other differs elsewhere =
        let here = write.named.0 in
        let names = write.named.1 in
        let none_else = Written-elsewhere path own write in
        elim (same_or_not one path) [
          | inl same ↦
              let is_file : file ≡ write.file =
                some-injective _ _ (sym at ∙ ap e.names same ∙ here) in
              let other_path : other ≢ path = λ e. differs (e ∙ sym same) in
              none_else other other_path
                (sym (names other other_path) ∙ elsewhere ∙ ap some is_file)
          | inr one_path ↦ elim (same_or_not other path) [
            | inl same ↦
                let is_file : file ≡ write.file =
                  some-injective _ _ (sym elsewhere ∙ ap e.names same ∙ here) in
                none_else one one_path (sym (names one one_path) ∙ at ∙ ap some is_file)
            | inr other_path ↦
                ready.alone one own_one file (sym (names one one_path) ∙ at) other differs
                  (sym (names other other_path) ∙ elsewhere)
          ]
        ]

    pub written-Ready : (path : String) → Own path → Written d e path → Ready content e
    written-Ready path own write =
        let source_path : source ≢ path = λ e. separate.own_source path own (sym e) in
        let apart_path : (other : String) → Apart other → other ≢ path =
          λ other apart e. apart.2 (subst Own (sym e) own) in
        record {
          file = ready.file;
          there = write.named.1 source source_path ∙ ready.there;
          shows =
              Shows-kept d e Apart (λ other apart. write.named.1 other (apart_path other apart))
                (λ file. file ≢ write.file) write.rest
                (λ other apart file at same.
                  Written-elsewhere path own write other (apart_path other apart)
                    (at ∙ ap some same))
                ready.file content
                (λ same.
                  Written-elsewhere path own write source source_path (ready.there ∙ ap some same))
                ready.shows;
          alone = Written-alone path own write;
        }

  module _ (separate : IsSeparate) (content : Content) (exec : Tools)
      (documented : IsDocumented exec) where
    pub outcome-Ready :
        (c : Command) (d e : Directory) (success : Bool)
        → IsMild c
        → Behaves d e c success
        → Ready content d
        → Ready content e
    outcome-Ready (link old new) d e true (is_source, is_ancestor) (file, at, linked, images)
          ready =
        let same : file ≡ ready.file =
          some-injective _ _ (sym at ∙ ap d.names is_source ∙ ready.there) in
        link-Ready separate content d e ready
          (
            ap e.names (sym is_ancestor) ∙ linked.0 ∙ ap some same,
            λ other differs. linked.1 other (λ e. differs (e ∙ is_ancestor)),
          )
          images
    outcome-Ready (link old new) d e false mild same ready =
        same-Ready separate content d e ready same
    outcome-Ready (create backing path size) d e true (_, own) (write, _) ready =
        written-Ready separate content d e ready path own write
    outcome-Ready (create backing path size) d e false (_, own) (inl same) ready =
        same-Ready separate content d e ready same
    outcome-Ready (create backing path size) d e false (_, own) (inr write) ready =
        written-Ready separate content d e ready path own write
    outcome-Ready (move _ _) d e success mild behaves ready = elim mild [ ]
    outcome-Ready (protect _) d e success mild behaves ready = elim mild [ ]

    -- The commands before number `stop` are mild.
    abbrev pub MildBefore : ℕ → List Command → Type 0
    MildBefore zero commands = Unit
    MildBefore (suc stop) [] = Unit
    MildBefore (suc stop) (c ∷ commands) = IsMild c × MildBefore stop commands

    pub cut-Ready :
        (stop : ℕ) (commands : List Command)
        → MildBefore stop commands
        → (d : Directory) → Ready content d
        → Ready content (run_script exec stop commands d).0
    unfolding run_script
    cut-Ready zero commands mild d ready = ready
    cut-Ready (suc stop) [] mild d ready = ready
    cut-Ready (suc stop) (c ∷ commands) (mild, more) d ready =
        let after = outcome-Ready c d (exec c d).0 (exec c d).1 mild (documented c d) ready in
        elim (Bool-cases (exec c d).1) [
          | inl success ↦ rw success (cut-Ready stop commands more (exec c d).0 after)
          | inr failure ↦ rw failure after
        ]

    -- Runs that are cut off before the source is replaced.
    pub attempts-Ready :
        (bound : ℕ) (commands : List Command)
        → ((stop : ℕ) → stop ≤ bound → MildBefore stop commands)
        → (stops : List ℕ) → AllUpTo bound stops
        → (d : Directory) → Ready content d
        → Ready content (run_scripts exec stops commands d)
    unfolding run_scripts
    attempts-Ready bound commands mild [] early d ready = ready
    attempts-Ready bound commands mild (stop ∷ stops) (first, early) d ready =
        attempts-Ready bound commands mild stops early _
          (cut-Ready stop commands (mild stop first) d ready)
