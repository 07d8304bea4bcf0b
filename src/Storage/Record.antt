-- ===== src/Storage/Record.antt =====
-- internal/storage/record.go and the checks of internal/storage/compression.go: the header of a
-- Kafka v2 record batch. A batch is a list of bytes; the records inside it are opaque.
-- `crc32c` is hash/crc32 with the Castagnoli table (internal/storage/crc.go): a parameter, of which
-- nothing is assumed. A field that is only masked (`attributes`) is kept as its bit pattern.
pub mod Fields
pub mod Stamp
pub mod Accept
mod Tests
use Prim.Native.Nat.{bit_and}
use kafka_wire.Prelude.{
  ℕ, ◌+◌, ◌*◌, ◌^◌, Bool, true, not, ◌&&◌, ◌||◌, List, ltb, ◌==◌, if◌then◌else◌, length, slice,
  drop,
}
use kafka_wire.Prelude.Result.{Result, ok, err, fail_if, ◌>>=◌, ◌>>◌}
use kafka_wire.Prelude.Int.{ℤ, pos, pos_part, ◌+ℤ◌, ltb_ℤ, eqb_ℤ, signed, wrap_64, bits_64, bits_32}
use kafka_wire.Prelude.Bytes.{be_uint, put_be, put_at}

abbrev pub v2_header_size : ℕ
v2_header_size = 61

abbrev pub max_batch_size : ℕ
max_batch_size = 4 * 1024 * 1024

abbrev pub none_codec : ℕ
none_codec = 0

abbrev pub gzip : ℕ
gzip = 1

abbrev pub snappy : ℕ
snappy = 2

abbrev pub lz4 : ℕ
lz4 = 3

abbrev pub zstd : ℕ
zstd = 4

pub record BatchHeader : Type 0 where
  pub base_offset : ℤ
  pub batch_length : ℤ
  pub magic : ℤ
  pub crc : ℕ
  pub attributes : ℕ
  pub last_offset_delta : ℤ
  pub first_timestamp : ℤ
  pub max_timestamp : ℤ
  pub producer_id : ℤ
  pub producer_epoch : ℤ
  pub base_sequence : ℤ
  pub record_count : ℤ

pub data RecordError : Type 0 where
  short_header bad_magic length_too_small length_too_large : RecordError
  short_for_crc crc_mismatch : RecordError
  unsupported_codec control_batch transactional : RecordError
  batch_too_small batch_too_large : RecordError

-- int64 arithmetic: the sum wraps.
unfoldable pub last_offset : BatchHeader → ℤ
last_offset h = wrap_64 (h.base_offset +ℤ h.last_offset_delta)

-- `12 + int(h.BatchLength)`, an int that holds the sum of any int32.
unfoldable pub total_size : BatchHeader → ℤ
total_size h = pos 12 +ℤ h.batch_length

-- The same as the bound of a slice and the step of a walk. Below zero Go's slices panic; the model then
-- has an empty slice and a walk that stays where it is.
unfoldable pub batch_size : BatchHeader → ℕ
unfolding total_size ◌+ℤ◌
batch_size h = pos_part (total_size h)

unfoldable pub compression : ℕ → ℕ
compression attributes = bit_and attributes 0x07

-- The fields of the 61 bytes, before any check.
unfoldable pub decode_header : List ℕ → BatchHeader
decode_header buf = record {
  base_offset = signed (2 ^ 63) (be_uint (slice 0 8 buf));
  batch_length = signed (2 ^ 31) (be_uint (slice 8 12 buf));
  magic = signed (2 ^ 7) (be_uint (slice 16 17 buf));
  crc = be_uint (slice 17 21 buf);
  attributes = be_uint (slice 21 23 buf);
  last_offset_delta = signed (2 ^ 31) (be_uint (slice 23 27 buf));
  first_timestamp = signed (2 ^ 63) (be_uint (slice 27 35 buf));
  max_timestamp = signed (2 ^ 63) (be_uint (slice 35 43 buf));
  producer_id = signed (2 ^ 63) (be_uint (slice 43 51 buf));
  producer_epoch = signed (2 ^ 15) (be_uint (slice 51 53 buf));
  base_sequence = signed (2 ^ 31) (be_uint (slice 53 57 buf));
  record_count = signed (2 ^ 31) (be_uint (slice 57 61 buf));
}

-- The checks of `ParseBatchHeader` on the decoded fields.
unfoldable pub check_header : BatchHeader → Result RecordError BatchHeader
check_header h = do
  fail_if (not (eqb_ℤ h.magic (pos 2))) bad_magic
  fail_if (ltb_ℤ h.batch_length (pos 49)) length_too_small
  fail_if (ltb_ℤ (pos max_batch_size) h.batch_length) length_too_large
  ok h

unfoldable pub parse_batch_header : List ℕ → Result RecordError BatchHeader
parse_batch_header buf =
    if ltb (length buf) v2_header_size then err short_header else check_header (decode_header buf)

unfoldable pub validate_crc : (List ℕ → ℕ) → List ℕ → Result RecordError (Unit {0})
validate_crc crc32c batch =
    if ltb (length batch) v2_header_size
    then err short_for_crc
    else if crc32c (drop 21 batch) == be_uint (slice 17 21 batch)
    then ok tt
    else err crc_mismatch

unfoldable pub validate_compression_codec : ℕ → Result RecordError (Unit {0})
unfolding compression
validate_compression_codec attributes =
    let codec = compression attributes in
    if codec == none_codec || codec == gzip || codec == snappy || codec == zstd
    then ok tt
    else if codec == lz4
    then ok tt
    else err unsupported_codec

unfoldable pub validate_batch_attributes : ℕ → Result RecordError (Unit {0})
validate_batch_attributes attributes = do
  validate_compression_codec attributes
  fail_if (not (bit_and attributes 0x20 == 0)) control_batch
  fail_if (not (bit_and attributes 0x10 == 0)) transactional

unfoldable pub validate_batch_for_append : (List ℕ → ℕ) → List ℕ → Result RecordError (Unit {0})
validate_batch_for_append crc32c batch = do
  fail_if (ltb (length batch) v2_header_size) batch_too_small
  fail_if (ltb max_batch_size (length batch)) batch_too_large
  h ← parse_batch_header batch
  validate_crc crc32c batch
  validate_batch_attributes h.attributes

-- Both write in place. Their callers hold a batch of a header's length at least.
unfoldable pub rewrite_base_offset : List ℕ → ℤ → List ℕ
rewrite_base_offset batch base_offset = put_at 0 (put_be 8 (bits_64 base_offset)) batch

unfoldable pub set_partition_leader_epoch : List ℕ → ℤ → List ℕ
set_partition_leader_epoch batch epoch = put_at 12 (put_be 4 (bits_32 epoch)) batch
