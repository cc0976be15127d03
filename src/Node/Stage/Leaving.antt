-- ===== src/Node/Stage/Leaving.antt =====
-- The order of the calls that unstage a volume from a node.
use subprovisioner.Base.{ℕ, String, ◌≡◌, refl, true, List, [], ◌∷◌, inl, inr, ◌<>◌, ◌⊎◌}
use subprovisioner.Kube.Objects.{Pvc}
use subprovisioner.Kube.Objects
use subprovisioner.Kube.Errors.{Result, ok, err, is_not_found, is_not_exist}
use subprovisioner.Kube.Calls.{
  Call, Event, event, History, get_pvc, list_pvcs, update_pvc, list_replica_sets, get_replica_set,
  delete_replica_set, remove, sleep, back_off,
}
use subprovisioner.Kube.Prog.{catch}
use subprovisioner.Kube.Contract.{
  Lasting, Meets, Success, Saw, Meets-if, Meets-then, Meets-bind, Outcome, returned, failed,
  polling, Meets-weaken,
}
use subprovisioner.Kube.Libraries.{Libraries, IsLawful}
use subprovisioner.Common.Config.{key}
use subprovisioner.Common.Pvc.{find_pvc_by_label_selector, only_item}
use subprovisioner.Common.Pvc.Staging.{UnstageOrder, UnstageDone, Meets-unstage_pvc_from_node}
use subprovisioner.Common.ReplicaSet.{find_replica_set_by_label_selector}
use subprovisioner.Common.ReplicaSet.Polling.{
  ReplicaSetGone, Meets-delete_replica_set_synchronously,
}
use subprovisioner.Node.Stage.{
  NodeUnstageVolumeRequest, staging_selector, remove_if_exists, delete_staging, node_unstage_volume,
}

module _ (node : String) (req : NodeUnstageVolumeRequest) where
  -- The staging replica sets of this volume on this node.
  abbrev pub search : String
  search =
      "subprovisioner.gitlab.io/component=volume-staging,"
      <> ("subprovisioner.gitlab.io/node-name="
          <> (node <> ("," <> ("subprovisioner.gitlab.io/pvc-uid=" <> req.volume_id))))

  -- The search of the staging replica sets gave exactly one, of this namespace and name.
  abbrev pub ReplicaSetListed : String → String → Event → Type 0
  ReplicaSetListed n m (event (list_replica_sets selector) (ok (replica_set ∷ []))) =
      (selector ≡ search) × (n ≡ replica_set.namespace) × (m ≡ replica_set.name)
  ReplicaSetListed n m _ = ⊥

  -- The server answered the search with "not found".
  abbrev pub NoneListed : Event → Type 0
  NoneListed (event (list_replica_sets selector) (err e)) =
      (selector ≡ search) × (is_not_found e ≡ true)
  NoneListed _ = ⊥

  -- The server said that the replica set of this namespace and name is not there, which the search
  -- had listed alone.
  pub record ListedGone (h : History) : Type 0 where
    pub namespace : String
    pub name : String
    pub listed : Saw (ReplicaSetListed namespace name) h
    pub gone : Saw (ReplicaSetGone namespace name) h

  abbrev pub NoReplicaSet : History → Type 0
  NoReplicaSet h = Saw NoneListed h ⊎ ListedGone h

  abbrev pub PathGone : Event → Type 0
  PathGone (event (remove path) (ok _)) = path ≡ req.staging_target_path
  PathGone (event (remove path) (err e)) =
      (path ≡ req.staging_target_path) × (is_not_exist e ≡ true)
  PathGone _ = ⊥

  -- The search of the claims gave exactly one.
  abbrev pub PvcListed : Pvc → Event → Type 0
  PvcListed pvc (event (list_pvcs selector) (ok (found ∷ []))) =
      (selector ≡ (key "/uid=" <> req.volume_id)) × (found ≡ pvc)
  PvcListed pvc _ = ⊥

  abbrev pub Detached : History → Type 0
  Detached h = NoReplicaSet h × Saw PathGone h

  NoReplicaSet-Lasting : Lasting NoReplicaSet
  NoReplicaSet-Lasting h e (inl none) = inl (inr none)
  NoReplicaSet-Lasting h e (inr found) = inr (record {
    namespace = found.namespace;
    name = found.name;
    listed = inr found.listed;
    gone = inr found.gone;
  })

  module _ (lib : Libraries) (law : IsLawful lib) (rounds : ℕ) where
    -- The claim of the volume, its staging over, is read or written.
    abbrev pub Leaving : History → Call → Type 0
    Leaving h c =
        Detached h
        × ((pvc : Pvc) × Saw (PvcListed pvc) h
            × UnstageOrder pvc.namespace pvc.name node lib law h c)

    -- Which calls unstaging may make, and when.
    abbrev pub UnstagingOrder : History → Call → Type 0
    UnstagingOrder h (list_replica_sets selector) = selector ≡ search
    UnstagingOrder h (delete_replica_set n m) = Saw (ReplicaSetListed n m) h
    UnstagingOrder h (get_replica_set n m) = Saw (ReplicaSetListed n m) h
    UnstagingOrder h (sleep _) = Unit
    UnstagingOrder h (remove path) = NoReplicaSet h × (path ≡ req.staging_target_path)
    UnstagingOrder h (list_pvcs selector) = selector ≡ (key "/uid=" <> req.volume_id)
    UnstagingOrder h c = Leaving h c

    abbrev pub Unstaged : History → Unit {0} → Type 0
    Unstaged h _ =
        Detached h
        × ((pvc : Pvc) × Saw (PvcListed pvc) h
            × Saw (UnstageDone pvc.namespace pvc.name node lib law) h)

    Gone : History → Unit {0} → Type 0
    Gone h _ = NoReplicaSet h

    -- What the search for the replica set leaves to `delete_staging`.
    Searched : History → Outcome (Result Objects.ReplicaSet) → Type 0
    Searched h (returned (ok replica_set)) =
        Saw (ReplicaSetListed replica_set.namespace replica_set.name) h
    Searched h (returned (err e)) = is_not_found e ≡ true → NoReplicaSet h
    Searched h _ = Unit

    Meets-only_replica_set :
        (h : History) (found : List Objects.ReplicaSet)
        → Meets UnstagingOrder Searched
            (event (list_replica_sets search) (ok found) ∷ h)
            (catch (only_item found))
    unfolding Meets catch Searched is_not_found
    Meets-only_replica_set h [] = λ missing. cc
    Meets-only_replica_set h (replica_set ∷ []) = inl (refl, refl, refl)
    Meets-only_replica_set h (_ ∷ _ ∷ _) = λ missing. cc

    Meets-search :
        Meets UnstagingOrder Searched [] (catch (find_replica_set_by_label_selector search))
    unfolding Meets find_replica_set_by_label_selector catch Searched staging_selector
    Meets-search = (
      refl,
      elim [
        | ok found ↦ Meets-only_replica_set [] found
        | err e ↦ λ missing. inl (inl (refl, missing))
      ],
    )

    Meets-delete_staging :
        (h : History) (found : Result Objects.ReplicaSet)
        → Searched h (returned found)
        → Meets UnstagingOrder (Success Gone) h (delete_staging lib rounds node found)
    unfolding delete_staging Searched Gone
    Meets-delete_staging h (ok replica_set) searched =
        Meets-weaken UnstagingOrder _ _ _ _
          (Meets-delete_replica_set_synchronously UnstagingOrder
            (Saw (ReplicaSetListed replica_set.namespace replica_set.name)) (λ g e. inr)
            replica_set.name replica_set.namespace (λ g listed. listed) (λ g. tt) rounds h searched
            searched)
          λ g. elim [
            | returned _ ↦ λ done. inr (record {
              namespace = replica_set.namespace;
              name = replica_set.name;
              listed = done.0;
              gone = done.1;
            })
            | failed e ↦ λ done. tt
            | polling ↦ λ done. tt
          ]
    Meets-delete_staging h (err e) searched =
        Meets-if UnstagingOrder (Success Gone) h (is_not_found e) _ _
          (λ missing. unfold Meets in searched missing) (λ _. unfold Meets in tt)

    Meets-remove_if_exists :
        (h : History)
        → NoReplicaSet h
        → Meets UnstagingOrder
            (Success (λ g _. Detached g))
            h
            (remove_if_exists req.staging_target_path)
    unfolding Meets remove_if_exists
    Meets-remove_if_exists h gone = (
      (gone, refl),
      elim [
        | ok _ ↦ (NoReplicaSet-Lasting h _ gone, inl refl)
        | err e ↦
            Meets-if UnstagingOrder (Success (λ g _. Detached g)) _ (is_not_exist e) _ _
              (λ missing. (NoReplicaSet-Lasting h _ gone, inl (refl, missing))) (λ _. tt)
      ],
    )

    LastListed : History → Pvc → Type 0
    LastListed h pvc = Detached h × Saw (PvcListed pvc) h

    Meets-find_pvc :
        (h : History)
        → Detached h
        → Meets UnstagingOrder
            (Success LastListed)
            h
            (find_pvc_by_label_selector (key "/uid=" <> req.volume_id))
    unfolding Meets find_pvc_by_label_selector LastListed
    Meets-find_pvc h (gone, removed) = (
      refl,
      elim [
        | ok [] ↦ tt
        | ok (pvc ∷ []) ↦ ((NoReplicaSet-Lasting h _ gone, inr removed), inl (refl, refl))
        | ok (_ ∷ _ ∷ _) ↦ tt
        | err e ↦ tt
      ],
    )

    leave_within :
        (pvc : Pvc) (h : History) (c : Call)
        → LastListed h pvc
        → UnstageOrder pvc.namespace pvc.name node lib law h c
        → UnstagingOrder h c
    unfolding LastListed
    leave_within pvc h (get_pvc n m) (detached, listed) allowed = (detached, (pvc, listed, allowed))
    leave_within pvc h (update_pvc n written) (detached, listed) allowed =
        (detached, (pvc, listed, allowed))
    leave_within pvc h back_off (detached, listed) allowed = (detached, (pvc, listed, allowed))
    leave_within pvc h _ _ allowed = elim allowed [ ]

    -- Whatever the answers are: only the replica set that the search of this volume and node listed
    -- alone is deleted and polled for; the staging path is removed only after the server said that
    -- this replica set is not there, or answered the search with "not found"; the claim that the
    -- search of the volume's uid listed alone is read and written only after that and after the path
    -- was gone, each write taking this node out of the claim read right before; and if unstaging
    -- succeeds, all of it was done and the write was accepted.
    pub node_unstage_volume_order :
        Meets UnstagingOrder (Success Unstaged) [] (node_unstage_volume lib rounds node req)
    unfolding node_unstage_volume Gone staging_selector
    node_unstage_volume_order =
        Meets-bind UnstagingOrder Searched (Success Unstaged) [] _ _ Meets-search λ h.
          unfold Searched in
          elim [
            | returned found ↦ λ searched.
                Meets-then UnstagingOrder Gone Unstaged h _ _
                  (Meets-delete_staging h found searched)
                  λ g _ gone.
                    Meets-then UnstagingOrder (λ g _. Detached g) Unstaged g _ _
                      (Meets-remove_if_exists g gone)
                      λ g₁ _ detached.
                        Meets-then UnstagingOrder LastListed Unstaged g₁ _ _
                          (Meets-find_pvc g₁ detached)
                          λ g₂ pvc listed.
                            Meets-weaken UnstagingOrder _ _ _ _
                              (Meets-unstage_pvc_from_node pvc.namespace pvc.name node lib law
                                UnstagingOrder (λ h. LastListed h pvc)
                                (unfold LastListed in
                                  λ h e found. (
                                    (NoReplicaSet-Lasting h e found.0.0, inr found.0.1),
                                    inr found.1,
                                  ))
                                (leave_within pvc) g₂ listed)
                              (unfold LastListed in
                                λ g₃. elim [
                                  | returned _ ↦ λ done. (done.0.0, (pvc, done.0.1, done.1))
                                  | failed e ↦ λ done. tt
                                  | polling ↦ λ done. tt
                                ])
            | failed e ↦ λ _. tt
            | polling ↦ λ _. tt
          ]
