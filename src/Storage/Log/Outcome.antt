-- ===== src/Storage/Log/Outcome.antt =====
-- All that `FetchAt` can come to, its errors included.
use kafka_wire.Prelude.{
  ℕ, zero, suc, ◌+◌, ◌≤◌, ◌<◌, ◌≡◌, ap, ◌∙◌, sym, subst, ◌⊎◌, inl, inr, List, [], ◌∷◌, take, arith,
  length, leb, ltb, ◌==◌, Bool-cases, Option-cases, none, some,
}
use kafka_wire.Prelude.Result.{Result, ok, err, Result-cases}
use kafka_wire.Prelude.Int.{ℤ, ◌<ℤ◌, leb_ℤ, ltb_ℤ}
use kafka_wire.Storage.Record.{
  v2_header_size, RecordError, parse_batch_header, batch_size, last_offset,
}
use kafka_wire.Storage.Batches.{trim_to_batch_boundary}
use kafka_wire.Storage.Segment.{Segment, read_at, find_loop, find_batch_at, zeros}
use kafka_wire.Storage.Log.{
  Log, LogError, offset_out_of_range, find_failed, first_whole, serve, fetch_from, fetch_at,
  find_segment, high_watermark,
}
use kafka_wire.Storage.Log.Place.{
  header_at, filled, Passes, arrived, passed, IsPlace, scan_start, find_batch_at-IsPlace,
}
use kafka_wire.Storage.Log.Fetch.{IsFetched, read_at-front}
use kafka_wire.Storage.Log.Served.{IsServed, behind, segments-cases, fetch_at-IsServed}

-- The scan came to bytes inside the log that are no header.
abbrev pub BreaksFrom : Segment → ℤ → List ℕ → ℕ → RecordError → Type 0
BreaksFrom s target buf start y =
    (buf' : List ℕ) × (p : ℕ) × Passes s target buf start buf' p
    × (p < s.log_size)
    × (header_at s buf' p ≡ err y)

abbrev pub Breaks : Segment → ℤ → ℕ → RecordError → Type 0
Breaks s target start y = BreaksFrom s target (zeros v2_header_size) start y

find_loop-Breaks :
    (fuel : ℕ) (s : Segment) (target : ℤ) (buf : List ℕ) (p : ℕ) (y : RecordError)
    → find_loop fuel s target buf p ≡ err y
    → BreaksFrom s target buf p y
unfolding find_loop
find_loop-Breaks zero s target buf p y e = absurd cc
find_loop-Breaks (suc fuel) s target buf p y e = elim (Bool-cases (leb s.log_size p)) [
  | inl end ↦ absurd (ground (arith, e, end))
  | inr inside ↦ elim (Result-cases (header_at s buf p)) [
    | inr (x, k) ↦ (buf, p, arrived buf p, ground (arith, inside), k ∙ ground (arith, inside, k, e))
    | inl (h, k) ↦ elim (Bool-cases (ltb_ℤ target h.base_offset)) [
      | inl before ↦ absurd (ground (arith, e, inside, k, before))
      | inr above ↦ elim (Bool-cases (leb_ℤ target (last_offset h))) [
        | inl within ↦ absurd (ground (arith, e, inside, k, above, within))
        | inr past ↦
            let (buf', r, way, within_log, bad) =
              find_loop-Breaks fuel s target (filled s buf p) (p + batch_size h) y
                (ground (arith, e, inside, k, above, past)) in
            (
              buf',
              r,
              passed buf buf' p r h (ground (arith, inside)) k (ground (arith, past)) way,
              within_log,
              bad,
            )
      ]
    ]
  ]
]

find_batch_at-Breaks :
    (s : Segment) (target : ℤ) (y : RecordError)
    → find_batch_at s target ≡ err y
    → Breaks s target (scan_start s target) y
unfolding find_batch_at
find_batch_at-Breaks s target y e =
    find_loop-Breaks (suc s.log_size) s target (zeros v2_header_size) (scan_start s target) y e

-- The bytes that were read at a position are no header, or too few for one.
abbrev pub BadRead : Segment → ℕ → ℕ → RecordError → Type 0
BadRead s q max_bytes y =
    (n : ℕ) × (n ≤ max_bytes) × (parse_batch_header (take n (behind s q)) ≡ err y)

first_whole_err :
    (s : Segment) (q : ℕ) (offset : ℤ) (buf : List ℕ) (x : LogError)
    → first_whole s q offset buf ≡ err x
    → (y : RecordError) × (x ≡ find_failed y) × (parse_batch_header buf ≡ err y)
unfolding first_whole
first_whole_err s q offset buf x e = elim (Result-cases (parse_batch_header buf)) [
  | inr (y, p) ↦ (y, ground (arith, e, p), p)
  | inl (h, p) ↦ elim (Bool-cases (ltb (length (read_at s q (batch_size h))) (batch_size h))) [
    | inl short ↦ absurd (ground (arith, e, p, short))
    | inr enough ↦ absurd (ground (arith, e, p, enough))
  ]
]

serve_err :
    (s : Segment) (q : ℕ) (offset : ℤ) (buf trimmed : List ℕ) (x : LogError)
    → serve s q offset buf trimmed ≡ err x
    → (y : RecordError) × (x ≡ find_failed y) × (parse_batch_header buf ≡ err y)
unfolding serve
serve_err s q offset buf [] x e = first_whole_err s q offset buf x e
serve_err s q offset buf (z ∷ zs) x e = absurd cc

fetch_from-BadRead :
    (s : Segment) (q : ℕ) (offset : ℤ) (max_bytes : ℕ) (x : LogError)
    → fetch_from s q offset max_bytes ≡ err x
    → (y : RecordError) × (x ≡ find_failed y) × BadRead s q max_bytes y
unfolding fetch_from
fetch_from-BadRead s q offset max_bytes x e =
    let buf = read_at s q max_bytes in
    elim (Bool-cases (length buf == 0)) [
      | inl empty ↦ absurd (ground (arith, e, empty))
      | inr some_byte ↦
          let (n, front, le, why) = read_at-front s q max_bytes in
          let (y, same, bad) =
            serve_err s q offset buf (trim_to_batch_boundary buf) x
              (ground (arith, e, some_byte)) in
          (y, same, (n, le, ap parse_batch_header (sym front) ∙ bad))
    ]

-- No segment has the offset although it is below the high watermark; or in the segment that has it the
-- scan breaks, or what is read at its end is no header.
abbrev pub IsRefused : Log → ℤ → ℕ → LogError → Type 0
IsRefused l offset max_bytes x =
    ((x ≡ offset_out_of_range) × (find_segment l offset ≡ none) × (offset <ℤ high_watermark l))
    ⊎ ((s : Segment) × (y : RecordError) × (find_segment l offset ≡ some s)
        × (x ≡ find_failed y)
        × (Breaks s offset (scan_start s offset) y
            ⊎ ((q : ℕ) × IsPlace s offset (scan_start s offset) q × BadRead s q max_bytes y)))

fetch_at-IsRefused :
    (l : Log) (offset : ℤ) (max_bytes : ℕ) (x : LogError)
    → fetch_at l offset max_bytes ≡ err x
    → IsRefused l offset max_bytes x
unfolding fetch_at
fetch_at-IsRefused l offset max_bytes x e = elim (segments-cases l.segments) [
  | inl empty ↦ absurd (ground (arith, empty, e))
  | inr (t, rest, full) ↦ elim (Option-cases (find_segment l offset)) [
    | inl missing ↦ elim (Bool-cases (leb_ℤ (high_watermark l) offset)) [
      | inl past ↦ absurd (ground (arith, full, missing, past, e))
      | inr before ↦ inl (ground (arith, full, missing, before, e), missing, ground (arith, before))
    ]
    | inr (s, found) ↦ elim (Result-cases (find_batch_at s offset)) [
      | inr (y, k) ↦
          inr (
            s,
            y,
            found,
            ground (arith, full, found, k, e),
            inl (find_batch_at-Breaks s offset y k),
          )
      | inl (q, k) ↦
          let (y, same, bad) =
            fetch_from-BadRead s q offset max_bytes x (ground (arith, full, found, k, e)) in
          inr (s, y, found, same, inr (q, find_batch_at-IsPlace s offset q k, bad))
    ]
  ]
]

abbrev pub IsOutcome : Log → ℤ → ℕ → Result LogError (List ℕ × ℤ) → Type 0
IsOutcome l offset max_bytes (ok (bytes, first)) =
    IsFetched max_bytes bytes × IsServed l offset max_bytes bytes first
IsOutcome l offset max_bytes (err x) = IsRefused l offset max_bytes x

pub fetch_at_lem :
    (l : Log) (offset : ℤ) (max_bytes : ℕ)
    → IsOutcome l offset max_bytes (fetch_at l offset max_bytes)
fetch_at_lem l offset max_bytes = elim (Result-cases (fetch_at l offset max_bytes)) [
  | inl ((bytes, first), e) ↦
      subst (IsOutcome l offset max_bytes) (sym e)
        (fetch_at-IsServed l offset max_bytes bytes first e)
  | inr (x, e) ↦
      subst (IsOutcome l offset max_bytes) (sym e) (fetch_at-IsRefused l offset max_bytes x e)
]
