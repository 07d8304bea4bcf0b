-- ===== src/Storage/Record/Fields.antt =====
-- What the header parser accepts, and that it reads the first 61 bytes only.
use kafka_wire.Prelude.{
  ℕ, ◌+◌, ◌≤◌, ◌≡◌, ap, ◌∙◌, sym, List, ◌++◌, length, slice, take, arith, length-append,
  slice-append_le, take-append-drop, length-take, drop,
}
use kafka_wire.Prelude.Result.{ok}
use kafka_wire.Prelude.Int.{parts_disjoint, pos, ◌≤ℤ◌, ◌+ℤ◌, +ℤ_parts}
use kafka_wire.Storage.Record.{
  BatchHeader, max_batch_size, decode_header, check_header, parse_batch_header, batch_size,
  total_size,
}

-- The facts of a header that `ParseBatchHeader` returned without an error.
pub record IsParsed (buf : List ℕ) (h : BatchHeader) : Type 0 where
  pub whole : 61 ≤ length buf
  pub fields : h ≡ decode_header buf
  pub version : h.magic ≡ pos 2
  pub lower : pos 49 ≤ℤ h.batch_length
  pub upper : h.batch_length ≤ℤ pos max_batch_size

check_header_ok :
    (h g : BatchHeader)
    → check_header h ≡ ok g
    → (g ≡ h)
      × (h.magic ≡ pos 2)
      × (pos 49 ≤ℤ h.batch_length)
      × (h.batch_length ≤ℤ pos max_batch_size)
unfolding check_header
check_header_ok h g e = ground arith

pub parse-IsParsed :
    (buf : List ℕ) (h : BatchHeader) → parse_batch_header buf ≡ ok h → IsParsed buf h
unfolding parse_batch_header
parse-IsParsed buf h e = ground (arith, check_header_ok (decode_header buf) h)

-- A batch of an accepted header takes 61 bytes at least, and `12 + BatchLength` exactly.
pub batch_size_bounds :
    (buf : List ℕ) (h : BatchHeader)
    → parse_batch_header buf ≡ ok h
    → (61 ≤ batch_size h) × (batch_size h ≤ max_batch_size + 12) × (61 ≤ length buf)
unfolding batch_size total_size
batch_size_bounds buf h e =
    let p = parse-IsParsed buf h e in
    let sum = +ℤ_parts (pos 12) h.batch_length in
    let sign = parts_disjoint (pos 12 +ℤ h.batch_length) in
    omega (arith, p, parts_disjoint h.batch_length, sum, sign)

module _ (buf more : List ℕ) (whole : 61 ≤ length buf) where
  slice_front : (a b : ℕ) → b ≤ 61 → slice a b (buf ++ more) ≡ slice a b buf
  slice_front a b h = slice-append_le a b buf more (omega arith)

  decode-append : decode_header (buf ++ more) ≡ decode_header buf
  unfolding decode_header
  decode-append = cc (
    slice_front 0 8 (omega arith),
    slice_front 8 12 (omega arith),
    slice_front 16 17 (omega arith),
    slice_front 17 21 (omega arith),
    slice_front 21 23 (omega arith),
    slice_front 23 27 (omega arith),
    slice_front 27 35 (omega arith),
    slice_front 35 43 (omega arith),
    slice_front 43 51 (omega arith),
    slice_front 51 53 (omega arith),
    slice_front 53 57 (omega arith),
    slice_front 57 61 (omega arith),
  )

  -- The bytes behind the header do not matter to the parser.
  pub parse-append : parse_batch_header (buf ++ more) ≡ parse_batch_header buf
  unfolding parse_batch_header
  parse-append = ground (arith, decode-append, length-append buf more)

-- Nor does the cut that a caller makes to hand over the 61 bytes alone.
pub parse-take :
    (buf : List ℕ) → 61 ≤ length buf → parse_batch_header (take 61 buf) ≡ parse_batch_header buf
parse-take buf h =
    sym (parse-append (take 61 buf) (drop 61 buf) (omega (arith, length-take 61 buf)))
    ∙ ap parse_batch_header (take-append-drop 61 buf)
