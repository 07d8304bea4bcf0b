-- ===== src/Storage/Log/Place.antt =====
-- The forward scan of `FindBatchAt`, described without its loop.
use kafka_wire.Prelude.{
  List, ℕ, zero, suc, ◌+◌, ◌≤◌, ◌<◌, ◌≡◌, ◌⊎◌, inl, inr, drop, none, some, arith, leb, Bool-cases,
}
use kafka_wire.Prelude.Result.{Result, ok, Result-cases}
use kafka_wire.Prelude.Int.{ℤ, ◌≤ℤ◌, ◌<ℤ◌, leb_ℤ, ltb_ℤ, wrap_64, ◌-ℤ◌}
use kafka_wire.Storage.Record.{
  RecordError, BatchHeader, v2_header_size, parse_batch_header, batch_size, last_offset,
}
use kafka_wire.Storage.Record.Fields.{batch_size_bounds}
use kafka_wire.Storage.Index.{lookup_position}
use kafka_wire.Storage.Segment.{Segment, find_loop, find_batch_at, read_into, zeros}

-- The buffer after a read at a position, and the header in it.
abbrev pub filled : Segment → List ℕ → ℕ → List ℕ
filled s buf p = read_into buf (drop p s.log_file.content)

abbrev pub header_at : Segment → List ℕ → ℕ → Result RecordError BatchHeader
header_at s buf p = parse_batch_header (filled s buf p)

-- From one position to another, and from one content of the buffer to another, there are batches, one
-- behind the other, that all end below the target.
pub data Passes (s : Segment) (target : ℤ) : List ℕ → ℕ → List ℕ → ℕ → Type 0 where
  arrived : (buf : List ℕ) (p : ℕ) → Passes s target buf p buf p
  passed :
      (buf buf' : List ℕ) (p q : ℕ) (h : BatchHeader)
      → p < s.log_size
      → header_at s buf p ≡ ok h
      → last_offset h <ℤ target
      → Passes s target (filled s buf p) (p + batch_size h) buf' q
      → Passes s target buf p buf' q

-- The batch at a position is the one to read from: the target is one of its offsets or lies before it.
abbrev pub IsHit : Segment → ℤ → List ℕ → ℕ → Type 0
IsHit s target buf p =
    (h : BatchHeader) × (header_at s buf p ≡ ok h)
    × ((target <ℤ h.base_offset) ⊎ (target ≤ℤ last_offset h))

-- Behind batches that end below the target: the first one that does not, or the end of the log.
abbrev pub IsPlaceFrom : Segment → ℤ → List ℕ → ℕ → ℕ → Type 0
IsPlaceFrom s target buf start q =
    (buf' : List ℕ) × (p : ℕ) × Passes s target buf start buf' p
    × (((p < s.log_size) × (q ≡ p) × IsHit s target buf' p) ⊎ ((s.log_size ≤ p) × (q ≡ s.log_size)))

abbrev pub IsPlace : Segment → ℤ → ℕ → ℕ → Type 0
IsPlace s target start q = IsPlaceFrom s target (zeros v2_header_size) start q

-- Where the index lets the scan begin.
abbrev pub scan_start : Segment → ℤ → ℕ
scan_start s target = elim (lookup_position s.idx (wrap_64 (target -ℤ s.base_offset))) [
  | some p ↦ p
  | none ↦ 0
]

find_loop-IsPlace :
    (fuel : ℕ) (s : Segment) (target : ℤ) (buf : List ℕ) (p q : ℕ)
    → 0 < fuel
    → s.log_size < p + fuel
    → find_loop fuel s target buf p ≡ ok q
    → IsPlaceFrom s target buf p q
unfolding find_loop
find_loop-IsPlace zero s target buf p q some_fuel enough e = absurd (omega arith)
find_loop-IsPlace (suc fuel) s target buf p q some_fuel enough e =
    elim (Bool-cases (leb s.log_size p)) [
      | inl end ↦ (buf, p, arrived buf p, inr (ground (arith, end), ground (arith, e, end)))
      | inr inside ↦ elim (Result-cases (header_at s buf p)) [
        | inr (x, k) ↦ absurd (ground (arith, inside, k, e))
        | inl (h, k) ↦ elim (Bool-cases (ltb_ℤ target h.base_offset)) [
          | inl before ↦ (
            buf,
            p,
            arrived buf p,
            inl (
              ground (arith, inside),
              ground (arith, e, inside, k, before),
              (h, k, inl (ground (arith, before))),
            ),
          )
          | inr above ↦ elim (Bool-cases (leb_ℤ target (last_offset h))) [
            | inl within ↦ (
              buf,
              p,
              arrived buf p,
              inl (
                ground (arith, inside),
                ground (arith, e, inside, k, above, within),
                (h, k, inr (ground (arith, within))),
              ),
            )
            | inr past ↦
                let bounds = batch_size_bounds _ h k in
                let (buf', r, way, found) =
                  find_loop-IsPlace fuel s target (filled s buf p) (p + batch_size h) q
                    (ground (arith, inside, enough)) (omega (arith, enough, bounds))
                    (ground (arith, e, inside, k, above, past)) in
                (
                  buf',
                  r,
                  passed buf buf' p r h (ground (arith, inside)) k (ground (arith, past)) way,
                  found,
                )
          ]
        ]
      ]
    ]

-- The scan ends, and where it should.
pub find_batch_at-IsPlace :
    (s : Segment) (target : ℤ) (q : ℕ)
    → find_batch_at s target ≡ ok q
    → IsPlace s target (scan_start s target) q
unfolding find_batch_at
find_batch_at-IsPlace s target q e =
    find_loop-IsPlace (suc s.log_size) s target (zeros v2_header_size) (scan_start s target) q
      (omega arith) (omega arith) e
