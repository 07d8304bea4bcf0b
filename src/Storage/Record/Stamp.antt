-- ===== src/Storage/Record/Stamp.antt =====
-- The two writes that `Log.Append` makes into a batch: the base offset and the leader epoch. Neither
-- is covered by the CRC, so a stamped batch is as valid as it was.
use kafka_wire.Prelude.{
  ℕ, ◌+◌, ◌-◌, ◌≤◌, ◌<◌, ◌^◌, ◌≡◌, ap, ◌∙◌, List, length, slice, take, drop, arith,
}
use kafka_wire.Prelude.Result.{map_ok}
use kafka_wire.Prelude.Int.{ℤ, pos, negsuc, Is64, signed, bits_64, bits_32}
use kafka_wire.Prelude.Bytes.{
  be_uint, put_be, length-put_be, be_uint-put_be, length-put_at, drop-put_at_after,
  slice-put_at_after, slice-put_at_before, slice-put_at_self,
}
use kafka_wire.Storage.Record.{
  BatchHeader, decode_header, check_header, parse_batch_header, validate_crc, rewrite_base_offset,
  set_partition_leader_epoch,
}

-- What `Log.Append` does to a batch before it hands it to the segment.
unfoldable pub stamp : List ℕ → ℤ → List ℕ
stamp batch offset = set_partition_leader_epoch (rewrite_base_offset batch offset) (pos 0)

bits_64-lt : (a : ℤ) → bits_64 a < 256 ^ 8
unfolding bits_64
bits_64-lt (pos n) = omega arith
bits_64-lt (negsuc n) = omega arith

-- An int64 is read back from its bit pattern.
signed-bits_64 : (a : ℤ) → Is64 a → signed (2 ^ 63) (bits_64 a) ≡ a
unfolding bits_64
signed-bits_64 (pos n) h = ground arith
signed-bits_64 (negsuc n) h = ground arith

module _ (batch : List ℕ) (offset : ℤ) (whole : 61 ≤ length batch) where
  length-base : 0 + length (put_be 8 (bits_64 offset)) ≤ length batch
  length-base = omega (arith, length-put_be 8 (bits_64 offset))

  length-rewrite_base_offset : length (rewrite_base_offset batch offset) ≡ length batch
  unfolding rewrite_base_offset
  length-rewrite_base_offset = length-put_at 0 (put_be 8 (bits_64 offset)) batch length-base

  length-epoch :
      12 + length (put_be 4 (bits_32 (pos 0))) ≤ length (rewrite_base_offset batch offset)
  length-epoch = omega (arith, length-put_be 4 (bits_32 (pos 0)), length-rewrite_base_offset)

  pub length-stamp : length (stamp batch offset) ≡ length batch
  unfolding stamp set_partition_leader_epoch
  length-stamp =
      length-put_at 12 (put_be 4 (bits_32 (pos 0))) (rewrite_base_offset batch offset) length-epoch
      ∙ length-rewrite_base_offset

  -- Everything behind the epoch is untouched, the part that the CRC covers included.
  pub drop-stamp : (a : ℕ) → 16 ≤ a → drop a (stamp batch offset) ≡ drop a batch
  unfolding stamp set_partition_leader_epoch rewrite_base_offset
  drop-stamp a h =
      drop-put_at_after 12 (put_be 4 (bits_32 (pos 0))) (rewrite_base_offset batch offset)
        length-epoch a (omega (arith, length-put_be 4 (bits_32 (pos 0))))
      ∙ drop-put_at_after 0 (put_be 8 (bits_64 offset)) batch length-base a
          (omega (arith, length-put_be 8 (bits_64 offset)))

  slice-stamp : (a b : ℕ) → 16 ≤ a → slice a b (stamp batch offset) ≡ slice a b batch
  slice-stamp a b h = ap (take (b - a)) (drop-stamp a h)

  slice-stamp_length : slice 8 12 (stamp batch offset) ≡ slice 8 12 batch
  unfolding stamp set_partition_leader_epoch rewrite_base_offset
  slice-stamp_length =
      slice-put_at_before 12 (put_be 4 (bits_32 (pos 0))) (rewrite_base_offset batch offset)
        length-epoch 8 12 (omega arith)
      ∙ slice-put_at_after 0 (put_be 8 (bits_64 offset)) batch length-base 8 12
          (omega (arith, length-put_be 8 (bits_64 offset)))

  slice-stamp_base : slice 0 8 (stamp batch offset) ≡ put_be 8 (bits_64 offset)
  unfolding stamp set_partition_leader_epoch rewrite_base_offset
  slice-stamp_base =
      slice-put_at_before 12 (put_be 4 (bits_32 (pos 0))) (rewrite_base_offset batch offset)
        length-epoch 0 8 (omega arith)
      ∙ ap (λ n. slice 0 n (rewrite_base_offset batch offset)) {x = 8}
          (omega (arith, length-put_be 8 (bits_64 offset)))
      ∙ slice-put_at_self 0 (put_be 8 (bits_64 offset)) batch length-base

  base-stamp : Is64 offset → signed (2 ^ 63) (be_uint (slice 0 8 (stamp batch offset))) ≡ offset
  base-stamp fits =
      ap (λ t. signed (2 ^ 63) (be_uint t)) slice-stamp_base
      ∙ ap (signed (2 ^ 63)) (be_uint-put_be 8 (bits_64 offset) (bits_64-lt offset))
      ∙ signed-bits_64 offset fits

  decode-stamp :
      Is64 offset
      → decode_header (stamp batch offset) ≡ record (decode_header batch) { base_offset = offset }
  unfolding decode_header
  decode-stamp fits = cc (
    base-stamp fits,
    slice-stamp_length,
    slice-stamp 16 17 (omega arith),
    slice-stamp 17 21 (omega arith),
    slice-stamp 21 23 (omega arith),
    slice-stamp 23 27 (omega arith),
    slice-stamp 27 35 (omega arith),
    slice-stamp 35 43 (omega arith),
    slice-stamp 43 51 (omega arith),
    slice-stamp 51 53 (omega arith),
    slice-stamp 53 57 (omega arith),
    slice-stamp 57 61 (omega arith),
  )

abbrev pub with_base : ℤ → BatchHeader → BatchHeader
with_base offset h = record h { base_offset = offset }

-- No check of the header reads the base offset.
check_header-with_base :
    (h : BatchHeader) (offset : ℤ)
    → check_header (with_base offset h) ≡ map_ok (with_base offset) (check_header h)
unfolding check_header
check_header-with_base h offset = ground arith

-- A batch of 61 bytes at least that is stamped with an int64 offset parses to what it did, error
-- or header, with the assigned base offset.
pub parse-stamp :
    (batch : List ℕ) (offset : ℤ)
    → 61 ≤ length batch
    → Is64 offset
    → parse_batch_header (stamp batch offset) ≡ map_ok (with_base offset) (parse_batch_header batch)
unfolding parse_batch_header
parse-stamp batch offset whole fits =
    rw (length-stamp batch offset whole, decode-stamp batch offset whole fits)
      (ground (arith, check_header-with_base (decode_header batch) offset))

-- Stamping a batch of 61 bytes at least keeps the verdict of the CRC check, whatever the checksum
-- function is.
pub validate_crc-stamp :
    (crc32c : List ℕ → ℕ) (batch : List ℕ) (offset : ℤ)
    → 61 ≤ length batch
    → validate_crc crc32c (stamp batch offset) ≡ validate_crc crc32c batch
unfolding validate_crc
validate_crc-stamp crc32c batch offset whole = rw (
  length-stamp batch offset whole,
  drop-stamp batch offset whole 21 (omega arith),
  slice-stamp batch offset whole 17 21 (omega arith),
)
