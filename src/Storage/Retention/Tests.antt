-- ===== src/Storage/Retention/Tests.antt =====
-- A sweep of a log of two segments by size, with the older one in the archive.
use kafka_wire.Prelude.{◌≡◌, refl, Bool, true, [], ◌∷◌, some, arith}
use kafka_wire.Prelude.Int.{ℤ, pos, ltb_ℤ}
use kafka_wire.Storage.Index.{open_index}
use kafka_wire.Storage.TimeIndex.{open_time_index}
use kafka_wire.Storage.Segment.{Segment, open_segment, recover}
use kafka_wire.Storage.Samples.{no_checksum}
use kafka_wire.Storage.Log.{Log, Config, active_segment, sealed_segments, new_files, segment_opts}
use kafka_wire.Storage.Log.Retention.{IsChain}
use kafka_wire.Storage.Retention.{RetentionConfig, sweep_log}
use kafka_wire.Storage.Retention.Archive.{IsSafe, sweep_log-IsSafe}

abbrev cfg : Config
cfg = record { segment_bytes = 1024; segment_ms = 1000; index_interval = 4096 }

abbrev base : ℤ → Segment
base offset = open_segment no_checksum (segment_opts cfg offset) (new_files 7)

abbrev older : Segment
older = record (base (pos 0)) { next_offset = pos 5; log_size = 100; sealed = true }

abbrev newer : Segment
newer = record (base (pos 5)) { next_offset = pos 9; log_size = 80 }

abbrev two : Log
two = record { cfg = cfg; segments = older ∷ (newer ∷ []); log_start = pos 0 }

abbrev before_five : Segment → Bool
before_five s = ltb_ℤ s.base_offset (pos 5)

abbrev limits : RetentionConfig
limits = record { retention_ms = pos 0; retention_bytes = pos 90; archived = some before_five }

two-IsChain : IsChain two.segments
unfolding IsChain open_segment recover open_index open_time_index
two-IsChain = (refl, tt)

two_active : active_segment two.segments ≡ some newer
unfolding active_segment
two_active = refl

sweep_log-IsSafe_example : IsSafe before_five two (sweep_log limits 20 two)
unfolding sealed_segments open_segment recover open_index open_time_index
sweep_log-IsSafe_example =
    sweep_log-IsSafe limits 20 two before_five newer refl two_active two-IsChain
      ((omega arith, omega arith), tt)
