-- ===== src/Controller/Create/Requests.antt =====
-- Which volume capabilities a creation accepts.
use subprovisioner.Base.{if◌then◌else◌, ◌≡◌, refl, Bool, true, false, List, [], ◌∷◌, ◌↔◌, All}
use subprovisioner.Kube.Errors.{Error, Result, ok, err}
use subprovisioner.Controller.Requests.{
  AccessMode, unknown_mode, multi_node_single_writer, multi_node_multi_writer, single_node_writer,
  single_node_reader_only, multi_node_reader_only, single_node_single_writer,
  single_node_multi_writer, VolumeCapability,
}
use subprovisioner.Controller.Create.{check_mode, check_capabilities}

-- The modes that put a volume on one node, and the mode for many readers.
abbrev pub IsServedMode : AccessMode → Type 0
IsServedMode single_node_writer = Unit
IsServedMode single_node_reader_only = Unit
IsServedMode single_node_single_writer = Unit
IsServedMode single_node_multi_writer = Unit
IsServedMode multi_node_reader_only = Unit
IsServedMode _ = ⊥

abbrev pub IsServed : VolumeCapability → Type 0
IsServed capability = (capability.block ≡ true) × IsServedMode capability.access_mode

check_mode_exact : (mode : AccessMode) → (check_mode mode ≡ ok tt) ↔ IsServedMode mode
check_mode_exact single_node_writer = (λ _. tt, λ _. refl)
check_mode_exact single_node_reader_only = (λ _. tt, λ _. refl)
check_mode_exact multi_node_reader_only = (λ _. tt, λ _. refl)
check_mode_exact single_node_single_writer = (λ _. tt, λ _. refl)
check_mode_exact single_node_multi_writer = (λ _. tt, λ _. refl)
check_mode_exact unknown_mode = (λ e. cc, λ served. elim served [ ])
check_mode_exact multi_node_single_writer = (λ e. cc, λ served. elim served [ ])
check_mode_exact multi_node_multi_writer = (λ e. cc, λ served. elim served [ ])

-- One round of the loop succeeds when its three parts do.
round_exact :
    (block : Bool) (mode rest : Result (Unit {0})) (e : Error)
    → ((if block then elim mode [ ok _ ↦ rest | err d ↦ err d ] else err e) ≡ ok tt)
      ↔ ((block ≡ true) × (mode ≡ ok tt) × (rest ≡ ok tt))
round_exact true (ok _) rest e = (λ done. (refl, refl, done), λ parts. parts.2)
round_exact true (err d) rest e = (λ done. cc, λ parts. cc)
round_exact false mode rest e = (λ done. cc, λ parts. cc)

-- The check of the capabilities succeeds if and only if each of them is a block volume's in one of the
-- served modes.
pub check_capabilities_exact :
    (capabilities : List VolumeCapability)
    → (check_capabilities capabilities ≡ ok tt) ↔ All IsServed capabilities
unfolding check_capabilities
check_capabilities_exact [] = (λ _. tt, λ _. refl)
check_capabilities_exact (capability ∷ rest) =
    let this =
      round_exact capability.block (check_mode capability.access_mode) (check_capabilities rest)
        _ in
    let mode = check_mode_exact capability.access_mode in
    let others = check_capabilities_exact rest in
    (
      λ done. let (block, good, more) = this.0 done in ((block, mode.0 good), others.0 more),
      λ served. this.1 (served.0.0, mode.1 served.0.1, others.1 served.1),
    )
