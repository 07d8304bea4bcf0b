-- ===== src/Storage/Record/Tests.antt =====
-- The checks and the stamp on one batch.
use kafka_wire.Prelude.{◌≡◌, ◌↔◌, arith}
use kafka_wire.Prelude.Result.{ok, map_ok}
use kafka_wire.Prelude.Int.{pos}
use kafka_wire.Storage.Record.{parse_batch_header, validate_batch_for_append}
use kafka_wire.Storage.Record.Accept.{IsStorable, validate_batch_for_append_iff}
use kafka_wire.Storage.Record.Stamp.{stamp, with_base, parse-stamp}
use kafka_wire.Storage.Samples.{no_checksum, sample}

validate_batch_for_append_iff_example :
    (validate_batch_for_append no_checksum sample ≡ ok tt) ↔ IsStorable no_checksum sample
validate_batch_for_append_iff_example = validate_batch_for_append_iff no_checksum sample

parse-stamp_example :
    parse_batch_header (stamp sample (pos 40))
    ≡ map_ok (with_base (pos 40)) (parse_batch_header sample)
parse-stamp_example = parse-stamp sample (pos 40) (omega arith) (omega arith)
