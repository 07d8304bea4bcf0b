-- ===== src/Broker/Topics/Renewal.antt =====
-- internal/broker/broker.go: a topic that is created after one of its name was deleted.
use kafka_wire.Prelude.{
  ℕ, zero, suc, ◌+◌, ◌≡◌, refl, ap, ◌∙◌, sym, inl, inr, List, [], All, some, Option, Option-cases,
  if◌then◌else◌, length, ◌==◌, option-both, if-both, subst,
}
use mathlib.Core.Path.{Path}
use kafka_wire.Prelude.Result.{Result, ok, err, ◌>>=◌, Result-cases}
use kafka_wire.Prelude.Int.{ℤ, pos_part, ltb_ℤ}
use kafka_wire.Prelude.Map.{same, same_refl, same-IsEqual, find, remove, find-put_same}
use kafka_wire.Storage.Log.{Config, open_log}
use kafka_wire.Tiering.Manifest.{SegmentEntry}
use kafka_wire.Tiering.Manifest.Forget.{forget_topic-none}
use kafka_wire.Broker.Names.{validate_name}
use kafka_wire.Broker.Topics.{Topic, TopicConfig, TopicRegistry, BrokerError}
use kafka_wire.Broker.Topics.Registry.{Disk, open_partitions, at_least_one, create, unregister}
use kafka_wire.Broker.Topics.Archive.{out_of_range, fetch_from_archive}
use kafka_wire.Broker.Topics.Service.{
  topic_config, Broker, max_partitions_per_topic, register, create_topic, delete_topic, forgotten,
  without_directory,
}

module _ (crc32c : List ℕ → ℕ) (cfg : Config) (now : ℕ) (disk : Disk) (name : List ℕ)
    (gone : (i : ℕ) → disk name i ≡ []) where
  open_partitions-fresh :
      (i n : ℕ)
      → All (λ l. l ≡ open_log crc32c cfg now []) (open_partitions crc32c cfg now disk name i n)
        × (length (open_partitions crc32c cfg now disk name i n) ≡ n)
  unfolding open_partitions
  open_partitions-fresh i zero = (tt, refl)
  open_partitions-fresh i (suc n) =
      let rest = open_partitions-fresh (i + 1) n in
      ((ap (open_log crc32c cfg now) (gone i), rest.0), ap suc rest.1)

-- The broker as a deletion leaves it.
abbrev deleted : Broker → List ℕ → Broker
deleted b name = record b {
  topics = remove same name b.topics;
  manifest = forgotten b.manifest name;
  disk = without_directory b.disk name;
}

-- A topic with so many empty logs, and nothing in the archive.
abbrev pub IsFresh : (List ℕ → ℕ) → ℕ → Config → List ℕ → ℤ → Broker × Topic → Type 0
IsFresh crc32c now cfg name partitions (b, t) =
    (find same name b.topics ≡ some t)
    × (length t.partitions ≡ pos_part (at_least_one partitions))
    × All (λ l. l ≡ open_log crc32c cfg now []) t.partitions

abbrev Oks : {A : Type 0} → (A → Type 0) → Result BrokerError A → Type 0
Oks P (ok a) = P a
Oks P (err e) = Unit

module _ (crc32c : List ℕ → ℕ) (now : ℕ) (b : Broker) (name : List ℕ)
    (restore : SegmentEntry → Option (List ℕ)) (idx offset : ℤ) (max_bytes : ℕ)
    (tenant : List ℕ) where
  -- The archive has nothing for it.
  abbrev IsUnarchived : Broker → Type 0
  IsUnarchived c =
      fetch_from_archive c.manifest restore name idx offset max_bytes tenant ≡ err out_of_range

  deleted-IsUnarchived : IsUnarchived (deleted b name)
  unfolding fetch_from_archive
  deleted-IsUnarchived = elim (Option-cases b.manifest) [
    | inl e ↦ rw e refl
    | inr (m, e) ↦ rw (e, fetch_from_archive, forget_topic-none m name idx offset) refl
  ]

  abbrev IsRenewed : ℤ → Broker × Topic → Type 0
  IsRenewed partitions made =
      IsFresh crc32c now b.storage name partitions made × IsUnarchived made.0

  register-IsRenewed :
      (cfg : TopicConfig)
      → Oks (IsRenewed cfg.num_partitions) (register crc32c now (deleted b name) name cfg)
  unfolding create
  register-IsRenewed cfg =
      let P = λ (r : Result BrokerError (TopicRegistry × Topic)).
        Oks (IsRenewed cfg.num_partitions)
          (r >>= λ made. ok (record (deleted b name) { topics = made.0 }, made.1)) in
      let disk = without_directory b.disk name in
      let gone = λ (i : ℕ). ap (λ x. if x then [] else b.disk name i) (same_refl name) in
      let fresh =
        open_partitions-fresh crc32c b.storage now disk name gone 0
          (pos_part (at_least_one cfg.num_partitions)) in
      if-both P (length name == 0) _ _ tt (
        option-both P (find same name (remove same name b.topics)) _ _
          (
            (find-put_same same same-IsEqual name _ (remove same name b.topics), fresh.1, fresh.0),
            deleted-IsUnarchived,
          )
          λ t. tt)

  create-IsRenewed :
      (partitions replication_factor : ℤ)
      → Oks
          (IsRenewed partitions)
          (create_topic crc32c now (deleted b name) name partitions replication_factor)
  unfolding create_topic
  create-IsRenewed partitions replication_factor = elim (Result-cases (validate_name name)) [
    | inr (e, v) ↦ rw (create_topic, v) tt
    | inl (u, v) ↦
        rw (create_topic, v)
          (if-both (Oks (IsRenewed partitions)) (ltb_ℤ max_partitions_per_topic partitions) _ _ tt
            (register-IsRenewed (topic_config (deleted b name) partitions replication_factor [])))
  ]

refused {ℓ} : {E : Type 0} {A : Type ℓ} {e : E} {a : A} → err e ≡ ok a → ⊥
refused h = cc h

unwrap : {a b : Broker} → Path (Result BrokerError Broker) (ok a) (ok b) → a ≡ b
unwrap h = cc h

deleted-lem : (b b' : Broker) (name : List ℕ) → delete_topic b name ≡ ok b' → b' ≡ deleted b name
unfolding delete_topic unregister
deleted-lem b b' name h = elim (Result-cases (validate_name name)) [
  | inr (e, v) ↦ absurd (refused (rw (delete_topic, v) at h))
  | inl (u, v) ↦ elim (Option-cases (find same name b.topics)) [
    | inl e ↦ absurd (refused (rw (delete_topic, v, unregister, e) at h))
    | inr (t, e) ↦ sym (unwrap (rw (delete_topic, v, unregister, e) at h))
  ]
]

-- If a topic is deleted and then one is created under the name, both without an error, the new
-- topic has as many partitions as asked for and one at least, each a log opened on an empty
-- directory, and a fetch from the archive finds nothing under the name.
pub delete_topic-create_topic :
    (crc32c : List ℕ → ℕ) (now : ℕ) (b b' : Broker) (name : List ℕ)
    (restore : SegmentEntry → Option (List ℕ)) (idx offset : ℤ) (max_bytes : ℕ) (tenant : List ℕ)
    (partitions replication_factor : ℤ) (made : Broker × Topic)
    → delete_topic b name ≡ ok b'
    → create_topic crc32c now b' name partitions replication_factor ≡ ok made
    → IsFresh crc32c now b.storage name partitions made
      × (fetch_from_archive made.0.manifest restore name idx offset max_bytes tenant
          ≡ err out_of_range)
delete_topic-create_topic crc32c now b b' name restore idx offset max_bytes tenant partitions
      replication_factor made d c =
    let renewed =
      create-IsRenewed crc32c now b name restore idx offset max_bytes tenant partitions
        replication_factor in
    subst (Oks (IsRenewed crc32c now b name restore idx offset max_bytes tenant partitions))
      (ap (λ x. create_topic crc32c now x name partitions replication_factor)
          (sym (deleted-lem b b' name d))
        ∙ c)
      renewed
