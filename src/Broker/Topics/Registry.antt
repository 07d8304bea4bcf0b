-- ===== src/Broker/Topics/Registry.antt =====
-- internal/broker/topic.go: the registry of topics. What a partition's directory holds is an argument, and
-- opening a directory succeeds.
use kafka_wire.Prelude.{
  ℕ, zero, suc, ◌+◌, List, [], ◌∷◌, none, some, map, concat, length, ◌==◌, if◌then◌else◌,
}
use kafka_wire.Prelude.Result.{Result, ok, err}
use kafka_wire.Prelude.Int.{ℤ, pos, leb_ℤ, pos_part}
use kafka_wire.Prelude.Map.{same, find, put, remove}
use kafka_wire.Storage.Segment.{SegmentFiles}
use kafka_wire.Storage.Log.{Config, Log, open_log}
use kafka_wire.Broker.Topics.{TopicConfig, Topic, TopicRegistry, BrokerError}
use kafka_wire.Broker.Topics.BrokerError.{name_required, topic_exists, unknown_topic}

-- The directories of the partitions.
abbrev pub Disk : Type 0
Disk = List ℕ → ℕ → List (ℤ × SegmentFiles)

-- The partitions from `i` on, `n` of them.
unfoldable pub open_partitions : (List ℕ → ℕ) → Config → ℕ → Disk → List ℕ → ℕ → ℕ → List Log
open_partitions crc32c cfg now disk name i zero = []
open_partitions crc32c cfg now disk name i (suc n) =
    open_log crc32c cfg now (disk name i) ∷ open_partitions crc32c cfg now disk name (i + 1) n

-- The configuration with the defaults of `Create` filled in.
abbrev pub at_least_one : ℤ → ℤ
at_least_one n = if leb_ℤ n (pos 0) then pos 1 else n

abbrev pub filled : TopicConfig → TopicConfig
filled cfg = record cfg {
  num_partitions = at_least_one cfg.num_partitions;
  replication_factor = at_least_one cfg.replication_factor;
}

unfoldable pub create :
    (List ℕ → ℕ)
    → Config
    → ℕ
    → Disk
    → TopicRegistry
    → List ℕ
    → TopicConfig
    → Result BrokerError (TopicRegistry × Topic)
create crc32c cfg now disk r name tcfg =
    if length name == 0 then err name_required else elim (find same name r) [
      | some t ↦ err topic_exists
      | none ↦
          let t : Topic = record {
            name = name;
            partitions =
                open_partitions crc32c cfg now disk name 0
                  (pos_part (at_least_one tcfg.num_partitions));
            cfg = filled tcfg;
          } in
          ok (put same name t r, t)
    ]

unfoldable pub adopt : TopicRegistry → List ℕ → List Log → TopicConfig → TopicRegistry
adopt r name partitions cfg =
    put same name (record { name = name; partitions = partitions; cfg = cfg }) r

unfoldable pub unregister : TopicRegistry → List ℕ → Result BrokerError TopicRegistry
unregister r name = elim (find same name r) [
  | none ↦ err unknown_topic
  | some t ↦ ok (remove same name r)
]

unfoldable pub all_logs : TopicRegistry → List Log
all_logs r = concat (map (λ e. e.1.partitions) r)
