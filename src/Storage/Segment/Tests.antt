-- ===== src/Storage/Segment/Tests.antt =====
-- A segment with one batch in it, reopened over a torn tail and spoilt index files.
use kafka_wire.Prelude.{◌≡◌, refl, [], ◌∷◌, none, concat, ◌++◌, arith}
use kafka_wire.Prelude.Result.{Result, ok, err}
use kafka_wire.Prelude.Int.{pos}
use kafka_wire.Prelude.Bytes.{be_uint}
use kafka_wire.Storage.Record.{
  check_header, decode_header, parse_batch_header, validate_crc, validate_batch_attributes,
  validate_compression_codec, compression,
}
use kafka_wire.Storage.Index.{open_index}
use kafka_wire.Storage.TimeIndex.{open_time_index}
use kafka_wire.Storage.Samples.{no_checksum, sample, sample-IsFramed}
use kafka_wire.Storage.Segment.{
  Segment, SegmentOpts, SegmentError, open_segment, recover, append, good_batch,
}
use kafka_wire.Storage.Segment.Replay.{append_all}
use kafka_wire.Storage.Segment.Recovery.{no_files, recover-append_all}

abbrev opts : SegmentOpts
opts = record { base_offset = pos 0; index_interval = 4096; max_bytes = 1024; max_age = 1000 }

abbrev empty : Segment
empty = open_segment no_checksum opts (no_files 7)

abbrev segment_or : Segment → Result SegmentError Segment → Segment
segment_or s (ok t) = t
segment_or s (err e) = s

abbrev filled : Segment
filled = segment_or empty (append_all no_checksum empty (sample ∷ []))

filled_run : append_all no_checksum empty (sample ∷ []) ≡ ok filled
unfolding append_all append open_segment recover open_index open_time_index parse_batch_header
    check_header decode_header be_uint validate_crc validate_batch_attributes
    validate_compression_codec compression
filled_run = refl

torn_end : good_batch no_checksum (1 ∷ []) ≡ none
unfolding good_batch
torn_end = refl

recover-append_all_example :
    open_segment no_checksum opts (record {
      log = concat (sample ∷ []) ++ (1 ∷ []);
      index = 9 ∷ [];
      time_index = [];
      mod_time = 7;
    })
    ≡ filled
recover-append_all_example =
    recover-append_all no_checksum opts 7 (sample ∷ []) (1 ∷ []) (9 ∷ []) [] filled
      (sample-IsFramed, tt) filled_run torn_end (ground arith)
