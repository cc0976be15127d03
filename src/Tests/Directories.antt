-- ===== src/Tests/Directories.antt =====
-- Tools that do what they are asked to, and a directory with two images.
use mathlib.Core.Path.{subst}
use mathlib.Core.Logic.{ite, if_pos, if_neg}
use mathlib.Core.Option.{some-injective, none-ne-some}
use native.Mathlib.Decide.{ℕ_discrete}
use subprovisioner.Base.{
  ℕ, suc, String, ◌≡◌, ◌≢◌, ◌<◌, arith, refl, ◌==◌, Bool, true, false, Option, none, some, inl, inr,
  if◌then◌else◌, Bool-cases, eq_iff,
}
use subprovisioner.Scripts.{
  Image, Directory, link, create, move, protect, overlay, Behaves, Tools, IsDocumented,
}
use subprovisioner.Scripts.Reliable.{IsReliable}

differs-== : (one other : String) → one ≢ other → (one == other) ≡ false
differs-== one other differs = elim (Bool-cases (one == other)) [
  | inl same ↦ absurd (differs ((eq_iff one other).0 same))
  | inr e ↦ e
]

same-== : (path : String) → (path == path) ≡ true
same-== path = (eq_iff path path).1 refl

-- One more name for a file.
abbrev pub with_name : (String → Option ℕ) → String → ℕ → String → Option ℕ
with_name names path file other = if other == path then some file else names other

pub with_name_below :
    (names : String → Option ℕ) (path : String) (file bound : ℕ)
    → file < bound
    → ((other : String) (f : ℕ) → names other ≡ some f → f < bound)
    → (other : String) (f : ℕ) → with_name names path file other ≡ some f
    → f < bound
with_name_below names path file bound small rest other f e = elim (Bool-cases (other == path)) [
  | inl same ↦
      subst (λ n. n < bound)
        (some-injective _ _ (subst (λ b. (if b then some file else names other) ≡ some f) same e))
        small
  | inr differs ↦
      rest other f (subst (λ b. (if b then some file else names other) ≡ some f) differs e)
]

abbrev pub with_image : (ℕ → Image) → ℕ → Image → ℕ → Image
with_image images file image other = ite (ℕ_discrete other file) image (images other)

abbrev pub without_name : (String → Option ℕ) → String → String → Option ℕ
without_name names path other = if other == path then none else names other

pub without_name_below :
    (names : String → Option ℕ) (path : String) (bound : ℕ)
    → ((other : String) (f : ℕ) → names other ≡ some f → f < bound)
    → (other : String) (f : ℕ) → without_name names path other ≡ some f
    → f < bound
without_name_below names path bound rest other f e = elim (Bool-cases (other == path)) [
  | inl same ↦
      absurd (none-ne-some f (subst (λ b. (if b then none else names other) ≡ some f) same e))
  | inr differs ↦ rest other f (subst (λ b. (if b then none else names other) ≡ some f) differs e)
]

abbrev link_found :
    (d : Directory) (new : String) (found : Option ℕ)
    → ((file : ℕ) → found ≡ some file → file < d.next)
    → Directory × Bool
link_found d new none small = (d, false)
link_found d new (some file) small = (
  record {
    names = with_name d.names new file;
    images = d.images;
    next = d.next;
    below = with_name_below d.names new file d.next (small file refl) d.below;
  },
  true,
)

abbrev create_found :
    (d : Directory) (path backing : String) (found : Option ℕ) → d.names path ≡ found → Directory
create_found d path backing (some file) at = record {
  names = d.names;
  images = with_image d.images file (overlay backing);
  next = d.next;
  below = d.below;
}
create_found d path backing none at = record {
  names = with_name d.names path d.next;
  images = with_image d.images d.next (overlay backing);
  next = suc d.next;
  below =
      with_name_below d.names path d.next (suc d.next) (omega arith)
        (λ other f e. omega (arith, d.below other f e));
}

abbrev move_found :
    (d : Directory) (old new : String) (found : Option ℕ)
    → ((file : ℕ) → found ≡ some file → file < d.next)
    → Directory × Bool
move_found d old new none small = (d, false)
move_found d old new (some file) small = (
  record {
    names = with_name (without_name d.names old) new file;
    images = d.images;
    next = d.next;
    below =
        with_name_below (without_name d.names old) new file d.next (small file refl)
          (without_name_below d.names old d.next d.below);
  },
  true,
)

unfoldable pub tools : Tools
tools (link old new) d = link_found d new (d.names old) (d.below old)
tools (create backing path size) d = (create_found d path backing (d.names path) refl, true)
tools (move old new) d = move_found d old new (d.names old) (d.below old)
tools (protect path) d = (d, true)

link-IsDocumented :
    (d : Directory) (old new : String) (found : Option ℕ)
    (small : (file : ℕ) → found ≡ some file → file < d.next)
    → d.names old ≡ found
    → Behaves d (link_found d new found small).0 (link old new) (link_found d new found small).1
link-IsDocumented d old new none small at = (λ _. refl, λ _. refl)
link-IsDocumented d old new (some file) small at = (
  file,
  at,
  (rw (same-== new) refl, λ other differs. rw (differs-== other new differs) refl),
  λ _. refl,
)

create-IsDocumented :
    (d : Directory) (backing path : String) (size : Option String) (found : Option ℕ)
    (at : d.names path ≡ found)
    → Behaves d (create_found d path backing found at) (create backing path size) true
create-IsDocumented d backing path size (some file) at = (
  record {
    file = file;
    which = inl at;
    named = (at, λ _ _. refl);
    rest = λ other differs. if_neg (ℕ_discrete other file) differs _ _;
  },
  if_pos (ℕ_discrete file file) refl _ _,
)
create-IsDocumented d backing path size none at = (
  record {
    file = d.next;
    which = inr (λ other e. omega (arith, d.below other d.next e));
    named = (rw (same-== path) refl, λ other differs. rw (differs-== other path differs) refl);
    rest = λ other differs. if_neg (ℕ_discrete other d.next) differs _ _;
  },
  if_pos (ℕ_discrete d.next d.next) refl _ _,
)

move-IsDocumented :
    (d : Directory) (old new : String) (found : Option ℕ)
    (small : (file : ℕ) → found ≡ some file → file < d.next)
    → d.names old ≡ found
    → Behaves d
        (move_found d old new found small).0
        (move old new)
        (move_found d old new found small).1
move-IsDocumented d old new none small at = (λ _. refl, λ _. refl)
move-IsDocumented d old new (some file) small at = (
  file,
  at,
  rw (same-== new) refl,
  λ differs. rw (differs-== old new differs) (rw (same-== old) refl),
  λ other not_old not_new.
      rw (differs-== other new not_new) (rw (differs-== other old not_old) refl),
  λ _. refl,
)

pub tools-IsDocumented : IsDocumented tools
unfolding tools
tools-IsDocumented (link old new) d = link-IsDocumented d old new (d.names old) (d.below old) refl
tools-IsDocumented (create backing path size) d =
    create-IsDocumented d backing path size (d.names path) refl
tools-IsDocumented (move old new) d = move-IsDocumented d old new (d.names old) (d.below old) refl
tools-IsDocumented (protect path) d = (λ _. refl, λ _. refl)

link-IsReliable :
    (d : Directory) (new : String) (found : Option ℕ)
    (small : (file : ℕ) → found ≡ some file → file < d.next) (file : ℕ)
    → found ≡ some file
    → (link_found d new found small).1 ≡ true
link-IsReliable d new none small file at = absurd (none-ne-some file at)
link-IsReliable d new (some _) small file at = refl

move-IsReliable :
    (d : Directory) (old new : String) (found : Option ℕ)
    (small : (file : ℕ) → found ≡ some file → file < d.next) (file : ℕ)
    → found ≡ some file
    → (move_found d old new found small).1 ≡ true
move-IsReliable d old new none small file at = absurd (none-ne-some file at)
move-IsReliable d old new (some _) small file at = refl

pub tools-IsReliable : IsReliable tools
unfolding tools
tools-IsReliable (link old new) d (file, at) =
    link-IsReliable d new (d.names old) (d.below old) file at
tools-IsReliable (create backing path size) d possible = refl
tools-IsReliable (move old new) d (file, at) =
    move-IsReliable d old new (d.names old) (d.below old) file at
tools-IsReliable (protect path) d possible = refl

-- The image of one volume, which lies on no other, with one sector written.
abbrev pub one_image : Directory
one_image = record {
  names = with_name (λ _. none) "/var/backing/pvc-1234.qcow2" 0;
  images =
      λ _. record { backing = none; layer = λ sector. ite (ℕ_discrete sector 3) (some 9) none };
  next = 1;
  below =
      with_name_below (λ _. none) "/var/backing/pvc-1234.qcow2" 0 1 (omega arith)
        (λ other f e. absurd (none-ne-some f e));
}
