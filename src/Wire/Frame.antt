-- ===== src/Wire/Frame.antt =====
-- internal/wire/frame.go: the length-prefixed frames of requests and responses. A connection is the
-- bytes that the client sends. kmsg's table of flexible versions is a parameter.
pub mod Varint
pub mod Tagged
pub mod Request
pub mod Encoded
pub mod Response
mod Tests
use Prim.Native.Nat.{bit_and, bit_or}
use kafka_wire.Prelude.{
  ℕ, zero, suc, ◌+◌, ◌*◌, ◌%◌, ◌^◌, Bool, true, false, ◌&&◌, List, [], ◌∷◌, ◌++◌, length, take,
  drop, slice, ltb, ◌==◌, if◌then◌else◌,
}
use kafka_wire.Prelude.Result.{Result, ok, err, ◌>>=◌, ◌>>◌, fail_if}
use kafka_wire.Prelude.Int.{ℤ, pos, pos_part, ltb_ℤ, leb_ℤ, signed, bits_32}
use kafka_wire.Prelude.Bytes.{be_uint, put_be}

abbrev pub max_frame_size : ℕ
max_frame_size = 16 * 1024 * 1024

pub data FrameError : Type 0 where
  closed invalid_size over_max over_hard_cap short_header short_client_id_length : FrameError
  short_client_id varint_overflow truncated_varint field_past_end : FrameError

pub record RequestHeader : Type 0 where
  pub api_key : ℤ
  pub api_version : ℤ
  pub correlation_id : ℤ
  pub client_id : List ℕ

-- The loop of `uvarint` at byte `i`: the list is `b[i:]`. `uint64(c)<<s` loses the bits above 2^64.
unfoldable pub uvarint_loop : List ℕ → ℕ → ℕ → ℕ → Result FrameError (ℕ × ℕ)
uvarint_loop [] i x s = err truncated_varint
uvarint_loop (c ∷ rest) i x s =
    let more = uvarint_loop rest (i + 1) (bit_or x (bit_and c 0x7f * 2 ^ s % 2 ^ 64)) (s + 7) in
    if i == 9 && ltb 1 c
    then err varint_overflow
    else if ltb c 0x80
    then ok (bit_or x (c * 2 ^ s % 2 ^ 64), i + 1)
    else more

-- The value and the number of bytes that it took.
unfoldable pub uvarint : List ℕ → Result FrameError (ℕ × ℕ)
uvarint b = uvarint_loop b 0 0 0

-- The loop of `skipTaggedFields` with `rounds` fields to go. `uint64(off)+size` wraps, and where the
-- test passes it is the value of `off += int(size)` too.
unfoldable pub skip_fields : ℕ → List ℕ → ℕ → Result FrameError ℕ
skip_fields zero b off = ok off
skip_fields (suc rounds) b off = do
  (tag, tag_bytes) ← uvarint (drop off b)
  (size, size_bytes) ← uvarint (drop (off + tag_bytes) b)
  let next = (off + tag_bytes + size_bytes + size) % 2 ^ 64
  fail_if (ltb (length b) next) field_past_end
  skip_fields rounds b next

unfoldable pub skip_tagged_fields : List ℕ → Result FrameError ℕ
skip_tagged_fields b = do (count, count_bytes) ← uvarint b; skip_fields count b count_bytes

-- `io.ReadFull` of `n` bytes from the connection, with what is left on it.
abbrev pub read_full : ℕ → List ℕ → Result FrameError (List ℕ × List ℕ)
read_full n stream = if ltb (length stream) n then err closed else ok (take n stream, drop n stream)

-- The client id behind the fixed header, and where the body starts. A negative length means null.
unfoldable pub parse_client_id : List ℕ → Result FrameError (List ℕ × ℕ)
parse_client_id frame =
    let len = signed (2 ^ 15) (be_uint (slice 8 10 frame)) in
    if ltb_ℤ len (pos 0)
    then ok ([], 10)
    else if ltb (length frame) (10 + pos_part len)
    then err short_client_id
    else ok (slice 10 (10 + pos_part len) frame, 10 + pos_part len)

abbrev pub tagged_bytes : Bool → List ℕ → Result FrameError ℕ
tagged_bytes flexible rest = elim flexible [ true ↦ skip_tagged_fields rest | false ↦ ok 0 ]

unfoldable pub parse_frame : (ℤ → ℤ → Bool) → List ℕ → Result FrameError (RequestHeader × List ℕ)
parse_frame is_flexible frame = do
  fail_if (ltb (length frame) 8) short_header
  let api_key = signed (2 ^ 15) (be_uint (slice 0 2 frame))
  let api_version = signed (2 ^ 15) (be_uint (slice 2 4 frame))
  let correlation_id = signed (2 ^ 31) (be_uint (slice 4 8 frame))
  fail_if (ltb (length frame) 10) short_client_id_length
  (client_id, start) ← parse_client_id frame
  n ← tagged_bytes (is_flexible api_key api_version) (drop start frame)
  ok (
    record {
      api_key = api_key;
      api_version = api_version;
      correlation_id = correlation_id;
      client_id = client_id;
    },
    drop (start + n) frame,
  )

-- The request, its body, and what follows it on the connection.
unfoldable pub read_request :
    (ℤ → ℤ → Bool) → ℤ → List ℕ → Result FrameError (RequestHeader × List ℕ × List ℕ)
read_request is_flexible max_bytes stream = do
  (size_buf, stream') ← read_full 4 stream
  let size = signed (2 ^ 31) (be_uint size_buf)
  fail_if (leb_ℤ size (pos 0)) invalid_size
  fail_if (ltb_ℤ max_bytes size) over_max
  fail_if (ltb_ℤ (pos max_frame_size) size) over_hard_cap
  (frame, stream'') ← read_full (pos_part size) stream'
  (header, body) ← parse_frame is_flexible frame
  ok (header, body, stream'')

-- The bytes of the one `conn.Write`.
unfoldable pub write_response : ℤ → List ℕ → Bool → List ℕ
write_response correlation_id body flexible_header =
    let header_size = if flexible_header then 5 else 4 in
    put_be 4 ((header_size + length body) % 2 ^ 32)
    ++ (put_be 4 (bits_32 correlation_id) ++ (if flexible_header then 0 ∷ body else body))
