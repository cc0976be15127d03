-- ===== src/Common/ReplicaSet/Polling.antt =====
-- What the functions of replicaset.go have seen when they return.
use mathlib.Core.Option.{some-injective}
use subprovisioner.Base.{ℕ, zero, suc, String, ◌≡◌, refl, true, Option, none, some, inl}
use subprovisioner.Kube.Errors.{Error, ok, err, is_not_found, is_already_exists}
use subprovisioner.Kube.Calls.{
  Call, Event, event, History, create_replica_set as create_replica_set_call, get_replica_set,
  delete_replica_set, sleep,
}
use subprovisioner.Kube.Contract.{Lasting, Meets, Success, Saw, Meets-if}
use subprovisioner.Common.ReplicaSet.{
  ReplicaSetConfig, replica_set_of, create_replica_set, await_replica_set_gone,
  delete_replica_set_synchronously,
}

-- The server said that there is no such replica set.
abbrev pub ReplicaSetGone : String → String → Event → Type 0
ReplicaSetGone namespace name (event (get_replica_set n m) (err e)) =
    (n ≡ namespace) × (m ≡ name) × (is_not_found e ≡ true)
ReplicaSetGone namespace name (event (delete_replica_set n m) (err e)) =
    (n ≡ namespace) × (m ≡ name) × (is_not_found e ≡ true)
ReplicaSetGone namespace name _ = ⊥

-- The replica set was created, or existed under its name already.
abbrev pub ReplicaSetMade : ReplicaSetConfig → Event → Type 0
ReplicaSetMade config (event (create_replica_set_call n made) (ok _)) =
    (n ≡ config.namespace) × (made ≡ replica_set_of config)
ReplicaSetMade config (event (create_replica_set_call n made) (err e)) =
    (n ≡ config.namespace) × (made ≡ replica_set_of config) × (is_already_exists e ≡ true)
ReplicaSetMade config _ = ⊥

module _ (Allowed : History → Call → Type 0) (Keeps : History → Type 0)
    (lasting : Lasting Keeps) where
  abbrev pub Attained : (Event → Type 0) → History → Unit {0} → Type 0
  Attained P h _ = Keeps h × Saw P h

  pub Meets-create_replica_set :
      (config : ReplicaSetConfig) (h : History)
      → Keeps h
      → Allowed h (create_replica_set_call config.namespace (replica_set_of config))
      → Meets Allowed (Success (Attained (ReplicaSetMade config))) h (create_replica_set config)
  unfolding Meets create_replica_set
  Meets-create_replica_set config h keeps allowed = (
    allowed,
    elim [
      | ok _ ↦ (lasting h _ keeps, inl (refl, refl))
      | err e ↦
          Meets-if Allowed (Success (Attained (ReplicaSetMade config))) _ (is_already_exists e) _ _
            (λ there. (lasting h _ keeps, inl (refl, refl, there))) (λ _. tt)
    ],
  )

  module _ (name namespace : String)
      (read : (h : History) → Keeps h → Allowed h (get_replica_set namespace name))
      (pause : (h : History) → Allowed h (sleep 1)) where
    Meets-await_replica_set_gone :
        (rounds : ℕ) (h : History) (o : Option Error)
        → Keeps h
        → ((e : Error) → o ≡ some e → is_not_found e ≡ true → Saw (ReplicaSetGone namespace name) h)
        → Meets Allowed
            (Success (Attained (ReplicaSetGone namespace name)))
            h
            (await_replica_set_gone rounds name namespace o)
    unfolding Meets await_replica_set_gone
    Meets-await_replica_set_gone rounds h (some e) keeps seen =
        Meets-if Allowed (Success (Attained (ReplicaSetGone namespace name))) h (is_not_found e) _ _
          (λ gone. (keeps, seen e refl gone)) (λ _. tt)
    Meets-await_replica_set_gone zero h none keeps seen = tt
    Meets-await_replica_set_gone (suc rounds) h none keeps seen = (
      pause h,
      λ _. (
        read _ (lasting h _ keeps),
        elim [
          | ok _ ↦
              Meets-await_replica_set_gone rounds _ none (lasting _ _ (lasting h _ keeps))
                (λ e p. cc)
          | err e ↦
              Meets-await_replica_set_gone rounds _ (some e) (lasting _ _ (lasting h _ keeps))
                (λ d p gone. inl (refl, refl, rw (some-injective _ _ p) gone))
        ],
      ),
    )

    pub Meets-delete_replica_set_synchronously :
        (rounds : ℕ) (h : History)
        → Keeps h
        → Allowed h (delete_replica_set namespace name)
        → Meets Allowed
            (Success (Attained (ReplicaSetGone namespace name)))
            h
            (delete_replica_set_synchronously rounds name namespace)
    unfolding Meets delete_replica_set_synchronously
    Meets-delete_replica_set_synchronously rounds h keeps allowed = (
      allowed,
      elim [
        | ok _ ↦ Meets-await_replica_set_gone rounds _ none (lasting h _ keeps) (λ e p. cc)
        | err e ↦
            Meets-await_replica_set_gone rounds _ (some e) (lasting h _ keeps)
              (λ d p gone. inl (refl, refl, rw (some-injective _ _ p) gone))
      ],
    )
