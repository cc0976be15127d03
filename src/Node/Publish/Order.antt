-- ===== src/Node/Publish/Order.antt =====
-- The order of the calls of `NodePublishVolume`.
use mathlib.Core.Bool.{false≢true}
use subprovisioner.Base.{
  ℕ, ◌<◌, String, ◌≡◌, refl, sym, ◌∙◌, true, [], ◌∷◌, inl, inr, if◌then◌else◌,
}
use subprovisioner.Kube.Errors.{ok, err, is_not_exist}
use subprovisioner.Kube.Calls.{Call, Event, event, History, remove, symlink, stat, chmod}
use subprovisioner.Kube.Contract.{Meets, Success, Saw, Meets-if, Meets-then, Meets-ret}
use subprovisioner.Kube.Prog.{call, lift}
use subprovisioner.Node.Stage.{remove_if_exists}
use subprovisioner.Node.Publish.{NodePublishVolumeRequest, make_readonly, node_publish_volume}
use subprovisioner.Node.Publish.Modes.{bit, is_write_bit, bit-clear_write_bits}

-- The path was removed, or there was nothing there.
abbrev pub Cleared : String → Event → Type 0
Cleared path (event (remove p) (ok _)) = p ≡ path
Cleared path (event (remove p) (err e)) = (p ≡ path) × (is_not_exist e ≡ true)
Cleared path _ = ⊥

abbrev pub Linked : String → String → Event → Type 0
Linked target path (event (symlink t p) (ok _)) = (t ≡ target) × (p ≡ path)
Linked target path _ = ⊥

-- The mode was set to `mode`.
abbrev pub ModeSet : String → Event → Type 0
ModeSet path (event (chmod p mode) (ok _)) = p ≡ path
ModeSet path _ = ⊥

-- The latest event was a read of the mode, and the new mode has its bits but for the permissions to
-- write.
abbrev pub WithoutWriting : String → ℕ → History → Type 0
WithoutWriting path mode (event (stat p) (ok old) ∷ _) =
    (p ≡ path) × ((k : ℕ) → k < 32 → bit k mode ≡ (if is_write_bit k then 0 else bit k old))
WithoutWriting path mode _ = ⊥

module _ (req : NodePublishVolumeRequest) where
  abbrev pub IsLinked : History → Type 0
  IsLinked = Saw (Linked req.staging_target_path req.target_path)

  abbrev pub PublishOrder : History → Call → Type 0
  PublishOrder h (remove path) = path ≡ req.target_path
  PublishOrder h (symlink target path) =
      (target ≡ req.staging_target_path)
      × (path ≡ req.target_path)
      × Saw (Cleared req.target_path) h
  PublishOrder h (stat path) = (path ≡ req.target_path) × (req.readonly ≡ true) × IsLinked h
  PublishOrder h (chmod path mode) =
      (path ≡ req.target_path)
      × (req.readonly ≡ true)
      × IsLinked h
      × WithoutWriting req.target_path mode h
  PublishOrder h _ = ⊥

  abbrev pub Published : History → Unit {0} → Type 0
  Published h _ = IsLinked h × (req.readonly ≡ true → Saw (ModeSet req.target_path) h)

  Meets-remove :
      (h : History)
      → Meets PublishOrder
          (Success (λ g _. Saw (Cleared req.target_path) g))
          h
          (remove_if_exists req.target_path)
  unfolding Meets remove_if_exists
  Meets-remove h = (
    refl,
    elim [
      | ok _ ↦ inl refl
      | err e ↦
          Meets-if PublishOrder (Success (λ g _. Saw (Cleared req.target_path) g)) _
            (is_not_exist e) _ _ (λ missing. inl (refl, missing)) (λ _. tt)
    ],
  )

  Meets-make_readonly :
      (h : History)
      → IsLinked h
      → req.readonly ≡ true
      → Meets PublishOrder (Success Published) h (make_readonly req.target_path)
  unfolding Meets make_readonly
  Meets-make_readonly h linked readonly = (
    (refl, readonly, linked),
    elim [
      | ok old ↦ (
        (refl, readonly, inr linked, (refl, λ k lt. bit-clear_write_bits k old lt)),
        elim [ ok _ ↦ (inr (inr linked), λ _. inl refl) | err e ↦ tt ],
      )
      | err e ↦ tt
    ],
  )

  Meets-link :
      (h : History)
      → Saw (Cleared req.target_path) h
      → Meets PublishOrder
          (Success (λ g _. IsLinked g))
          h
          (call (symlink req.staging_target_path req.target_path) lift)
  unfolding Meets
  Meets-link h cleared = ((refl, refl, cleared), elim [ ok _ ↦ inl (refl, refl) | err e ↦ tt ])

  -- Whatever the answers are: publishing a volume links the target path to the staging path only after
  -- the target path was removed or was not there; only for a read-only request, and after the link, it
  -- reads the mode at the target path and sets the mode that it read without the three permissions to
  -- write and with the other 29 of its 32 bits; it calls nothing else, and if it returns, the link was
  -- made and, for a read-only request, the mode was set.
  pub node_publish_volume_order :
      Meets PublishOrder (Success Published) [] (node_publish_volume req)
  unfolding node_publish_volume
  node_publish_volume_order =
      Meets-then PublishOrder (λ g _. Saw (Cleared req.target_path) g) Published [] _ _
        (Meets-remove [])
        λ g _ cleared.
          Meets-then PublishOrder (λ g _. IsLinked g) Published g _ _ (Meets-link g cleared)
            λ k _ linked.
              Meets-if PublishOrder (Success Published) k req.readonly _ _
                (Meets-make_readonly k linked)
                (λ writable.
                  Meets-ret PublishOrder Published k tt
                    (linked, λ readonly. absurd (false≢true (sym writable ∙ readonly))))
