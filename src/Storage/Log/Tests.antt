-- ===== src/Storage/Log/Tests.antt =====
-- A log of two segments of which the older one is sealed, and a new partition's log.
use kafka_wire.Prelude.{◌+◌, ◌≡◌, refl, true, false, [], ◌∷◌, some, arith}
use kafka_wire.Prelude.Result.{ok, err}
use kafka_wire.Prelude.Int.{ℤ, pos, ◌≤ℤ◌, ◌<ℤ◌, ◌+ℤ◌, ◌-ℤ◌, wrap_64, bits_64}
use kafka_wire.Prelude.Bytes.{be_uint}
use kafka_wire.Storage.Record.{
  batch_too_small, decode_header, batch_size, last_offset, parse_batch_header, check_header,
  validate_crc, validate_batch_attributes, validate_compression_codec, compression,
  validate_batch_for_append,
}
use kafka_wire.Storage.Index.{open_index}
use kafka_wire.Storage.TimeIndex.{open_time_index}
use kafka_wire.Storage.Segment.{
  Segment, open_segment, recover, should_roll, seal, recover_loop, good_batch, finish_recovery,
  note_batch,
}
use kafka_wire.Storage.Samples.{no_checksum, sample, sample-valid, backward, backward-valid}
use kafka_wire.Storage.Log.{
  Log, Config, invalid_batch, roll_if_due, roll, files_at, set_active, validate_all, active_segment,
  append, high_watermark, find_segment, delete_segments_before, earliest_offset, new_files,
  segment_opts,
}
use kafka_wire.Storage.Log.Writable.{IsWritable, Rolled}
use kafka_wire.Storage.Log.Writing.{Added, stamped, end_offset, IsRising}
use kafka_wire.Storage.Log.Rising.{forward-IsRising}
use kafka_wire.Storage.Log.Append.{append-IsValid, append-err}
use kafka_wire.Storage.Log.Backwards.{append-backwards}
use kafka_wire.Storage.Log.Retention.{IsChain, IsDeletion, delete_segments_before_lem}
use kafka_wire.Storage.Log.Find.{find_segment_lem}

abbrev cfg : Config
cfg = record { segment_bytes = 1024; segment_ms = 1000; index_interval = 4096 }

abbrev base : ℤ → Segment
base offset = open_segment no_checksum (segment_opts cfg offset) (new_files 7)

abbrev older : Segment
older = record (base (pos 0)) { next_offset = pos 5; log_size = 100; sealed = true }

abbrev newer : Segment
newer = record (base (pos 5)) { next_offset = pos 9; log_size = 80 }

abbrev pub two : Log
two = record { cfg = cfg; segments = older ∷ (newer ∷ []); log_start = pos 0 }

two-IsWritable : IsWritable two
unfolding open_segment recover open_index open_time_index
two-IsWritable = (
  older ∷ [],
  newer,
  refl,
  record { unsealed = refl; at_end = refl; fits = (omega arith, omega arith) },
  ((omega arith, tt), omega arith),
)

sample-IsRising : IsRising (high_watermark two) (sample ∷ [])
unfolding high_watermark active_segment decode_header be_uint
sample-IsRising =
    forward-IsRising (high_watermark two) (sample ∷ []) (omega arith)
      ((omega arith, omega arith), tt) (omega arith)

append-IsValid_example :
    (l' : Log) × (append no_checksum false (λ n. 8 + n) two (sample ∷ [])
      ≡ (l', ok (high_watermark two)))
    × Added two l'
        (stamped (high_watermark two) (sample ∷ []))
        (end_offset (high_watermark two) (sample ∷ []))
append-IsValid_example =
    append-IsValid no_checksum (λ n. 8 + n) two (sample ∷ []) two-IsWritable (ground arith)
      (sample-valid, tt) sample-IsRising

short_run :
    append no_checksum false (λ n. 8) two (sample ∷ ((0 ∷ []) ∷ []))
    ≡ (two, err (invalid_batch batch_too_small))
unfolding append active_segment roll_if_due should_roll validate_all validate_batch_for_append
    parse_batch_header check_header decode_header be_uint validate_crc validate_batch_attributes
    validate_compression_codec compression open_segment recover open_index open_time_index
short_run = refl

append-err_example : Rolled two two
append-err_example =
    append-err no_checksum false (λ n. 8) two two (sample ∷ ((0 ∷ []) ∷ []))
      (invalid_batch batch_too_small) two-IsWritable short_run

append-backwards_example :
    (l' : Log) × (append no_checksum false (λ n. 8) two (backward ∷ [])
      ≡ (l', ok (high_watermark two)))
    × (high_watermark l' <ℤ high_watermark two)
unfolding decode_header be_uint high_watermark active_segment
append-backwards_example =
    append-backwards no_checksum (λ n. 8) two backward two-IsWritable backward-valid (omega arith)
      (omega arith, omega arith) (omega arith)

two-IsChain : IsChain two.segments
unfolding IsChain open_segment recover open_index open_time_index
two-IsChain = (refl, tt)

two_active : active_segment two.segments ≡ some newer
unfolding active_segment
two_active = refl

delete_segments_before_lem_example :
    IsDeletion two.segments
      (pos 6)
      ((delete_segments_before two (pos 6)).0.segments, (delete_segments_before two (pos 6)).1)
    × (high_watermark (delete_segments_before two (pos 6)).0 ≡ high_watermark two)
    × ((delete_segments_before two (pos 6)).0.log_start
        ≡ earliest_offset (delete_segments_before two (pos 6)).0)
delete_segments_before_lem_example =
    delete_segments_before_lem two (pos 6) newer two-IsChain two_active

find_segment_lem_example :
    (s : Segment) × (find_segment two (pos 7) ≡ some s)
    × (s.base_offset ≤ℤ pos 7)
    × (pos 7 <ℤ s.next_offset)
unfolding high_watermark earliest_offset active_segment open_segment recover open_index
    open_time_index
find_segment_lem_example = find_segment_lem two (pos 7) two-IsChain (omega arith) (omega arith)

-- A batch took the offset back to 0, where there is a segment with one batch: the roll opens its files.
abbrev first : Segment
first = record (base (pos 0)) {
  log_file = record { content = sample; cursor = 61 };
  log_size = 61;
  next_offset = pos 1;
  sealed = true;
}

abbrev back_to_0 : Log
back_to_0 = record {
  cfg = cfg;
  segments = first ∷ (record (base (pos 1)) { next_offset = pos 0; log_size = 80 } ∷ []);
  log_start = pos 0;
}

roll_reopens : high_watermark (roll no_checksum 9 back_to_0) ≡ pos 1
unfolding roll files_at high_watermark active_segment set_active seal open_segment recover
    recover_loop good_batch finish_recovery note_batch open_index open_time_index parse_batch_header
    check_header decode_header be_uint batch_size validate_crc last_offset ◌+ℤ◌ ◌-ℤ◌ wrap_64 bits_64
roll_reopens = refl
