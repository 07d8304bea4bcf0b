-- ===== src/Storage/Log/FetchTests.antt =====
-- A fetch from a log that holds one batch.
use kafka_wire.Prelude.{◌≡◌, refl, subst, [], ◌∷◌}
use kafka_wire.Prelude.Result.{ok}
use kafka_wire.Prelude.Int.{pos, ◌-ℤ◌, ◌+ℤ◌, wrap_64, bits_64}
use kafka_wire.Prelude.Bytes.{be_uint}
use kafka_wire.Prelude.Search.{search}
use kafka_wire.Storage.Record.{
  decode_header, parse_batch_header, check_header, batch_size, last_offset,
}
use kafka_wire.Storage.Batches.{next_size, trim_loop, trim_to_batch_boundary}
use kafka_wire.Storage.Index.{open_index, lookup_position}
use kafka_wire.Storage.TimeIndex.{open_time_index}
use kafka_wire.Storage.Segment.{
  Segment, open_segment, recover, read_at, find_batch_at, find_loop, zeros,
}
use kafka_wire.Storage.Samples.{no_checksum, sample}
use kafka_wire.Storage.Log.{
  Log, Config, new_files, segment_opts, fetch_at, fetch_from, serve, base_of, find_segment, find_in,
  starts_after, high_watermark, active_segment,
}
use kafka_wire.Storage.Log.Fetch.{IsFetched}
use kafka_wire.Storage.Log.Served.{IsServed}
use kafka_wire.Storage.Log.Outcome.{IsOutcome, fetch_at_lem}

abbrev cfg : Config
cfg = record { segment_bytes = 1024; segment_ms = 1000; index_interval = 4096 }

abbrev filled : Segment
filled = record (open_segment no_checksum (segment_opts cfg (pos 0)) (new_files 7)) {
  log_file = record { content = sample; cursor = 61 };
  log_size = 61;
  next_offset = pos 1;
}

abbrev one : Log
one = record { cfg = cfg; segments = filled ∷ []; log_start = pos 0 }

fetch_run : fetch_at one (pos 0) 100 ≡ ok (sample, pos 0)
unfolding fetch_at fetch_from serve base_of find_segment find_in starts_after high_watermark
    active_segment read_at find_batch_at find_loop zeros open_segment recover open_index
    open_time_index lookup_position search decode_header parse_batch_header check_header batch_size
    last_offset next_size trim_loop trim_to_batch_boundary be_uint ◌-ℤ◌ ◌+ℤ◌ wrap_64 bits_64
fetch_run = refl

-- What it says there, with the run above.
fetched : IsFetched 100 sample × IsServed one (pos 0) 100 sample (pos 0)
fetched = subst (IsOutcome one (pos 0) 100) fetch_run (fetch_at_lem one (pos 0) 100)
