-- ===== src/Wire/Frame/Tagged.antt =====
-- Tagged fields of a request header: the walk stays in the frame, and does not always go forward.
use kafka_wire.Prelude.{
  ℕ, zero, suc, ◌+◌, ◌-◌, ◌%◌, ◌^◌, ◌≤◌, ◌<◌, ◌≡◌, refl, inl, inr, List, length, drop, arith,
}
use kafka_wire.Prelude.Result.{ok, Result-cases}
use kafka_wire.Wire.Frame.{uvarint, skip_fields, skip_tagged_fields}
use kafka_wire.Wire.Frame.Varint.{uvarint_takes}

skip_fields-le :
    (rounds : ℕ) (b : List ℕ) (off n : ℕ)
    → off ≤ length b
    → skip_fields rounds b off ≡ ok n
    → n ≤ length b
unfolding skip_fields
skip_fields-le zero b off n h e = ground arith
skip_fields-le (suc rounds) b off n h e = elim (Result-cases (uvarint (drop off b))) [
  | inr (x, p) ↦ ground (arith, p)
  | inl ((tag, t), p) ↦ elim (Result-cases (uvarint (drop (off + t) b))) [
    | inr (x, q) ↦ ground (arith, p, q)
    | inl ((size, z), q) ↦
        ground (arith, p, q, skip_fields-le rounds b ((off + t + z + size) % 2 ^ 64) n)
  ]
]

-- The reported length of a tagged section never passes the end of the bytes, whatever a client sends,
-- so the body that follows can be sliced off.
pub skip_tagged_fields-le : (b : List ℕ) (n : ℕ) → skip_tagged_fields b ≡ ok n → n ≤ length b
unfolding skip_tagged_fields
skip_tagged_fields-le b n e = elim (Result-cases (uvarint b)) [
  | inr (x, p) ↦ ground (arith, p)
  | inl ((count, c), p) ↦ ground (arith, p, uvarint_takes b count c p, skip_fields-le count b c n)
]

-- The test on a field's size wraps: from an offset inside the bytes and below 2^64, a field whose
-- size is 2^64 less the bytes of its own tag and size sends the walk back to its start. Any number
-- of such fields is then read from the same few bytes, and takes none.
pub skip_fields_stuck :
    (rounds : ℕ) (b : List ℕ) (off tag t z : ℕ)
    → off ≤ length b
    → off < 2 ^ 64
    → uvarint (drop off b) ≡ ok (tag, t)
    → uvarint (drop (off + t) b) ≡ ok (2 ^ 64 - (t + z), z)
    → skip_fields rounds b off ≡ ok off
unfolding skip_fields
skip_fields_stuck zero b off tag t z h fits p q = refl
skip_fields_stuck (suc rounds) b off tag t z h fits p q =
    let back : (off + t + z + (2 ^ 64 - (t + z))) % 2 ^ 64 ≡ off =
      omega (arith, uvarint_takes _ tag t p, uvarint_takes _ (2 ^ 64 - (t + z)) z q) in
    ground (arith, p, q, back, skip_fields_stuck rounds b off tag t z h fits p q)
