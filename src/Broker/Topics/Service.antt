-- ===== src/Broker/Topics/Service.antt =====
-- internal/broker/broker.go: the operations on topics, with produce and fetch. Saving the topics' file,
-- dropping cached segments and removing a directory succeed; of the disk the model keeps the directories
-- of the topics that are not registered.
use kafka_wire.Prelude.{ℕ, Bool, List, [], ◌∷◌, Option, none, some, if◌then◌else◌, zero, suc}
use kafka_wire.Prelude.Result.{Result, ok, err, ◌>>=◌}
use kafka_wire.Prelude.Int.{ℤ, pos, negsuc, leb_ℤ, ltb_ℤ, pos_part}
use kafka_wire.Prelude.Map.{same, find, put}
use kafka_wire.Storage.Log as Log
use kafka_wire.Storage.Log.{Log, LogError, Config, fetch_at, high_watermark}
use kafka_wire.Tiering.Manifest.{Manifest, SegmentEntry, forget_topic}
use kafka_wire.Broker.Names.{validate_name}
use kafka_wire.Broker.Topics.{
  TopicConfig, Topic, TopicRegistry, BrokerError, partition, verify_topic_tenant,
}
use kafka_wire.Broker.Topics.BrokerError.{
  unknown_topic, unknown_partition, unauthorized_topic, too_many_partitions, invalid_name,
  log_failed,
}
use kafka_wire.Broker.Topics.Registry.{Disk, create, unregister}
use kafka_wire.Broker.Topics.Archive.{fetch_from_archive}

pub record Broker : Type 0 where
  pub storage : Config
  pub auto_create : Bool
  pub default_partitions : ℤ
  pub default_rep_factor : ℤ
  pub topics : TopicRegistry
  pub disk : Disk
  pub manifest : Option Manifest

abbrev pub max_partitions_per_topic : ℤ
max_partitions_per_topic = pos 1024

abbrev pub topic_config : Broker → ℤ → ℤ → List ℕ → TopicConfig
topic_config b partitions replication_factor tenant = record {
  num_partitions = partitions;
  replication_factor = replication_factor;
  retention_ms = negsuc 0;
  retention_bytes = negsuc 0;
  segment_bytes = pos b.storage.segment_bytes;
  owner_tenant_id = tenant;
}

module _ (crc32c : List ℕ → ℕ) (now : ℕ) where
  abbrev pub register : Broker → List ℕ → TopicConfig → Result BrokerError (Broker × Topic)
  register b name cfg = create crc32c b.storage now b.disk b.topics name cfg >>= λ made.
      ok (record b { topics = made.0 }, made.1)

  unfoldable pub ensure_topic_for_tenant :
      Broker → List ℕ → ℤ → List ℕ → Result BrokerError (Broker × Topic)
  ensure_topic_for_tenant b name partitions tenant = elim (find same name b.topics) [
    | some t ↦ ok (b, t)
    | none ↦
        if b.auto_create
        then register b name (
            topic_config b (if leb_ℤ partitions (pos 0) then b.default_partitions else partitions)
              b.default_rep_factor tenant)
        else err unknown_topic
  ]

  unfoldable pub create_topic : Broker → List ℕ → ℤ → ℤ → Result BrokerError (Broker × Topic)
  create_topic b name partitions replication_factor = elim (validate_name name) [
    | err e ↦ err (invalid_name e)
    | ok u ↦
        if ltb_ℤ max_partitions_per_topic partitions
        then err too_many_partitions
        else register b name (topic_config b partitions replication_factor [])
  ]

-- `removeAllSafe` of the topic's directory.
abbrev pub without_directory : Disk → List ℕ → Disk
without_directory disk name = λ topic i. if same topic name then [] else disk topic i

abbrev pub forgotten : Option Manifest → List ℕ → Option Manifest
forgotten none name = none
forgotten (some m) name = some (forget_topic m name)

unfoldable pub delete_topic : Broker → List ℕ → Result BrokerError Broker
delete_topic b name = elim (validate_name name) [
  | err e ↦ err (invalid_name e)
  | ok u ↦ unregister b.topics name >>= λ topics. ok (record b {
    topics = topics;
    manifest = forgotten b.manifest name;
    disk = without_directory b.disk name;
  })
]

-- The partition's log is a pointer: this is a change made to it.
unfoldable pub set_log : List Log → ℕ → Log → List Log
set_log [] i l = []
set_log (x ∷ xs) zero l = l ∷ xs
set_log (x ∷ xs) (suc i) l = x ∷ set_log xs i l

abbrev pub with_log : Broker → Topic → ℤ → Log → Broker
with_log b t idx l = record b {
  topics =
      put same t.name (record t { partitions = set_log t.partitions (pos_part idx) l }) b.topics;
}

abbrev pub lift_log : Result LogError ℤ → Result BrokerError ℤ
lift_log (ok offset) = ok offset
lift_log (err e) = err (log_failed e)

-- The write once the topic is there.
unfoldable pub append_to :
    (List ℕ → ℕ)
    → Bool
    → (ℕ → ℕ)
    → Broker
    → Topic
    → ℤ
    → List (List ℕ)
    → List ℕ
    → Broker × Result BrokerError ℤ
append_to crc32c paused clock b t idx batches tenant = elim (verify_topic_tenant t tenant) [
  | err e ↦ (b, err e)
  | ok u ↦ elim (partition t idx) [
    | none ↦ (b, err unknown_partition)
    | some l ↦
        let (l', result) = Log.append crc32c paused clock l batches in
        (with_log b t idx l', lift_log result)
  ]
]

unfoldable pub append_batches_authorized :
    (List ℕ → ℕ)
    → Bool
    → (ℕ → ℕ)
    → Broker
    → List ℕ
    → ℤ
    → List (List ℕ)
    → List ℕ
    → Broker × Result BrokerError ℤ
append_batches_authorized crc32c paused clock b topic idx batches tenant =
    elim (find same topic b.topics) [
      | some t ↦ append_to crc32c paused clock b t idx batches tenant
      | none ↦ elim (ensure_topic_for_tenant crc32c (clock 0) b topic b.default_partitions tenant) [
        | err e ↦ (b, err e)
        | ok made ↦ append_to crc32c paused clock made.0 made.1 idx batches tenant
      ]
    ]

-- What a fetch gives: the bytes, the offset of the first, the high watermark and the start of the log.
pub record Fetched : Type 0 where
  pub bytes : List ℕ
  pub first_offset : ℤ
  pub high_watermark : ℤ
  pub log_start : ℤ

abbrev pub or_archive :
    Log
    → Result LogError (List ℕ × ℤ)
    → Result BrokerError (List ℕ × ℤ)
    → Result BrokerError Fetched
or_archive l (ok (bytes, first)) archived = ok (record {
  bytes = bytes;
  first_offset = first;
  high_watermark = high_watermark l;
  log_start = l.log_start;
})
or_archive l (err LogError.offset_out_of_range) (ok (bytes, first)) = ok (record {
  bytes = bytes;
  first_offset = first;
  high_watermark = high_watermark l;
  log_start = l.log_start;
})
or_archive l (err LogError.offset_out_of_range) (err unauthorized_topic) = err unauthorized_topic
or_archive l (err e) archived = err (log_failed e)

unfoldable pub fetch_internal :
    (SegmentEntry → Option (List ℕ))
    → Broker
    → List ℕ
    → ℤ
    → ℤ
    → ℕ
    → List ℕ
    → Result BrokerError Fetched
fetch_internal restore b topic idx offset max_bytes tenant = elim (find same topic b.topics) [
  | none ↦ err unknown_topic
  | some t ↦ elim (partition t idx) [
    | none ↦ err unknown_partition
    | some l ↦
        or_archive l (fetch_at l offset max_bytes)
          (fetch_from_archive b.manifest restore topic idx offset max_bytes tenant)
  ]
]

unfoldable pub fetch_authorized :
    (SegmentEntry → Option (List ℕ))
    → Broker
    → List ℕ
    → ℤ
    → ℤ
    → ℕ
    → List ℕ
    → Result BrokerError Fetched
fetch_authorized restore b topic idx offset max_bytes tenant = elim (find same topic b.topics) [
  | none ↦ err unknown_topic
  | some t ↦ elim (verify_topic_tenant t tenant) [
    | err e ↦ err e
    | ok u ↦ fetch_internal restore b topic idx offset max_bytes tenant
  ]
]
