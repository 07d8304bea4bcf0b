-- ===== src/Storage/Record/Accept.antt =====
-- Which batches a broker stores.
use Prim.Native.Nat.{bit_and}
use kafka_wire.Prelude.{ℕ, ◌≤◌, ◌≡◌, ◌↔◌, List, length, slice, drop, arith}
use kafka_wire.Prelude.Result.{ok}
use kafka_wire.Prelude.Int.{pos, ◌≤ℤ◌}
use kafka_wire.Prelude.Bytes.{be_uint}
use kafka_wire.Storage.Record.{
  max_batch_size, decode_header, check_header, parse_batch_header, validate_crc, compression,
  validate_compression_codec, validate_batch_attributes, validate_batch_for_append,
}

-- A storable batch, field by field.
pub record IsStorable (crc32c : List ℕ → ℕ) (batch : List ℕ) : Type 0 where
  pub at_least : 61 ≤ length batch
  pub at_most : length batch ≤ max_batch_size
  pub version : (decode_header batch).magic ≡ pos 2
  pub lower : pos 49 ≤ℤ (decode_header batch).batch_length
  pub upper : (decode_header batch).batch_length ≤ℤ pos max_batch_size
  pub checksum : crc32c (drop 21 batch) ≡ be_uint (slice 17 21 batch)
  pub codec : compression (decode_header batch).attributes ≤ 4
  pub plain : bit_and (decode_header batch).attributes 0x10 ≡ 0
  pub no_marker : bit_and (decode_header batch).attributes 0x20 ≡ 0

attributes_iff :
    (a : ℕ)
    → (validate_batch_attributes a ≡ ok tt)
      ↔ ((compression a ≤ 4) × (bit_and a 0x10 ≡ 0) × (bit_and a 0x20 ≡ 0))
unfolding validate_batch_attributes validate_compression_codec
attributes_iff a = ground arith

-- The storage layer accepts a batch exactly if it has 61 bytes to 4 MiB, its header has magic 2
-- and announces a length from 49 to 4 MiB, its checksum matches, its codec is one of the five
-- known ones, and neither transaction bit is set.
pub validate_batch_for_append_iff :
    (crc32c : List ℕ → ℕ) (batch : List ℕ)
    → (validate_batch_for_append crc32c batch ≡ ok tt) ↔ IsStorable crc32c batch
unfolding validate_batch_for_append parse_batch_header check_header validate_crc
validate_batch_for_append_iff crc32c batch =
    ground (arith, attributes_iff (decode_header batch).attributes)
