-- ===== src/Plugin/Order.antt =====
-- The order of the calls that set a plugin up.
use subprovisioner.Base.{String, ◌≡◌, refl, true, List, [], ◌∷◌, inl, inr, Bool-cases}
use subprovisioner.Kube.Errors.{ok, err, is_not_exist}
use subprovisioner.Kube.Calls.{
  Call, Event, event, History, Service, identity_server, controller_server, node_server, remove,
  in_cluster_config, new_clientset, new_snapshot_clientset, listen, start_monitor, serve,
}
use subprovisioner.Kube.Contract.{Meets, Success, Saw}
use subprovisioner.Kube.Prog.{Prog, call, lift, ◌>>=◌, ◌>>◌}
use subprovisioner.Node.Stage.{remove_if_exists}
use subprovisioner.Plugin.{setup, listened, run_controller_plugin, run_node_plugin}

module _ (path : String) where
  abbrev pub Configured : Event → Type 0
  Configured (event in_cluster_config (ok _)) = Unit
  Configured _ = ⊥

  abbrev pub Connected : Event → Type 0
  Connected (event new_clientset (ok _)) = Unit
  Connected _ = ⊥

  abbrev pub ConnectedToSnapshots : Event → Type 0
  ConnectedToSnapshots (event new_snapshot_clientset (ok _)) = Unit
  ConnectedToSnapshots _ = ⊥

  -- The path was removed, or was not there.
  abbrev pub Cleaned : Event → Type 0
  Cleaned (event (remove p) (ok _)) = p ≡ path
  Cleaned (event (remove p) (err e)) = (p ≡ path) × (is_not_exist e ≡ true)
  Cleaned _ = ⊥

  abbrev pub Listened : Event → Type 0
  Listened (event (listen p) (ok _)) = p ≡ path
  Listened _ = ⊥

  abbrev pub SetUp : History → Type 0
  SetUp h = Saw Listened h × Saw Cleaned h × Saw Connected h × Saw ConnectedToSnapshots h

  module _ (monitored : List String) (services : List Service) where
    abbrev pub Monitoring : List String → History → Type 0
    Monitoring [] h = Unit
    Monitoring (image ∷ _) (event (start_monitor started) _ ∷ _) = started ≡ image
    Monitoring _ _ = ⊥

    abbrev pub Monitors : List String → String → Type 0
    Monitors [] image = ⊥
    Monitors (wanted ∷ _) image = image ≡ wanted

    -- Which calls the set-up may make, and when.
    abbrev pub PluginOrder : History → Call → Type 0
    PluginOrder h in_cluster_config = Unit
    PluginOrder h new_clientset = Saw Configured h
    PluginOrder h new_snapshot_clientset = Saw Configured h
    PluginOrder h (remove p) = (p ≡ path) × Saw Connected h × Saw ConnectedToSnapshots h
    PluginOrder h (listen p) = (p ≡ path) × Saw Cleaned h
    PluginOrder h (start_monitor image) = Monitors monitored image × SetUp h
    PluginOrder h (serve served) = (served ≡ services) × SetUp h × Monitoring monitored h
    PluginOrder h _ = ⊥

    -- The server ran and stopped without an error.
    abbrev pub Served : Event → Type 0
    Served (event (serve served) (ok _)) = served ≡ services
    Served _ = ⊥

    abbrev Ends : History → Unit {0} → Type 0
    Ends h _ = Saw Served h

    -- The listening, once the path is clean.
    Meets-listen :
        (h : History) (f : Unit {0} → Prog (Unit {0}))
        → Saw Cleaned h
        → Saw Connected h
        → Saw ConnectedToSnapshots h
        → ((g : History) → SetUp g → Meets PluginOrder (Success Ends) g (f tt))
        → Meets PluginOrder (Success Ends) h (call (listen path) listened >>= f)
    unfolding Meets
    Meets-listen h f cleaned connected snapshots rest = (
      (refl, cleaned),
      elim [ ok _ ↦ rest _ (inl refl, inr cleaned, inr connected, inr snapshots) | err e ↦ tt ],
    )

    -- The removal of an old socket, in front of the listening.
    Meets-clean :
        (h : History) (f : Unit {0} → Prog (Unit {0}))
        → Saw Connected h
        → Saw ConnectedToSnapshots h
        → ((g : History) → SetUp g → Meets PluginOrder (Success Ends) g (f tt))
        → Meets PluginOrder
            (Success Ends)
            h
            ((remove_if_exists path >> call (listen path) listened) >>= f)
    unfolding Meets remove_if_exists
    Meets-clean h f connected snapshots rest = (
      (refl, connected, snapshots),
      elim [
        | ok _ ↦ Meets-listen _ f (inl refl) (inr connected) (inr snapshots) rest
        | err e ↦ elim (Bool-cases (is_not_exist e)) [
          | inl missing ↦
              rw missing
                (Meets-listen _ f (inl (refl, missing)) (inr connected) (inr snapshots) rest)
          | inr other ↦ rw other tt
        ]
      ],
    )

    setup-then :
        (f : Unit {0} → Prog (Unit {0}))
        → ((g : History) → SetUp g → Meets PluginOrder (Success Ends) g (f tt))
        → Meets PluginOrder (Success Ends) [] (setup path >>= f)
    unfolding Meets setup
    setup-then f rest = (
      tt,
      elim [
        | err e ↦ tt
        | ok _ ↦ (
          inl tt,
          elim [
            | err e ↦ tt
            | ok _ ↦ (
              inr (inl tt),
              elim [ err e ↦ tt | ok _ ↦ Meets-clean _ f (inr (inl tt)) (inl tt) rest ],
            )
          ],
        )
      ],
    )

    Meets-serve :
        (h : History)
        → SetUp h
        → Monitoring monitored h
        → Meets PluginOrder (Success Ends) h (call (serve services) lift)
    unfolding Meets
    Meets-serve h set_up monitoring =
        ((refl, set_up, monitoring), elim [ ok _ ↦ inl refl | err e ↦ tt ])

-- Whatever the answers are: both clients are made only with a configuration that was read; the socket's
-- path is removed only after that, and listened at only after it was removed or was not there; the
-- controller's plugin starts its monitor only after all of this, and serves only right after the
-- monitor was started; the node's plugin serves after all of this and starts no monitor; each serves
-- its two services and no other; no other call is made; and if a plugin returns without an error,
-- it has served them.
pub plugins_order :
    (path node_name image : String)
    → Meets
        (PluginOrder path (image ∷ []) (identity_server ∷ controller_server image ∷ []))
        (Success
          λ h _. Saw (Served path (image ∷ []) (identity_server ∷ controller_server image ∷ [])) h)
        []
        (run_controller_plugin path image)
      × Meets
          (PluginOrder path [] (identity_server ∷ node_server node_name image ∷ []))
          (Success
            λ h _. Saw (Served path [] (identity_server ∷ node_server node_name image ∷ [])) h)
          []
          (run_node_plugin path node_name image)
unfolding run_controller_plugin run_node_plugin
plugins_order path node_name image =
    let controller = identity_server ∷ controller_server image ∷ [] in
    let node = identity_server ∷ node_server node_name image ∷ [] in
    (
      setup-then path (image ∷ []) controller _ (λ h set_up.
          unfold Meets in
          (
            (refl, set_up),
            λ _. (
              (refl, (inr set_up.0, inr set_up.1, inr set_up.2, inr set_up.3), refl),
              elim [ ok _ ↦ inl refl | err e ↦ tt ],
            ),
          )),
      setup-then path [] node _ (λ h set_up. Meets-serve path [] node h set_up tt),
    )
