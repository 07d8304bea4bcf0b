-- ===== src/Storage/Log/Served.antt =====
-- `FetchAt`: where it reads, what it returns, and when that is nothing.
use kafka_wire.Prelude.{
  ℕ, zero, suc, min, ltb→lt, ◌+◌, ◌≤◌, ◌<◌, ◌≡◌, ◌≢◌, refl, ap, ◌∙◌, sym, subst, ◌⊎◌, inl, inr,
  List, [], ◌∷◌, arith, length, take, drop, concat, length-take, ltb, ◌==◌, true, false, Bool-cases,
  Option-cases, some,
}
use kafka_wire.Prelude.Result.{ok, Result-cases}
use kafka_wire.Prelude.Int.{ℤ, ◌≤ℤ◌, leb_ℤ}
use kafka_wire.Storage.Record.{BatchHeader, parse_batch_header, batch_size}
use kafka_wire.Storage.Record.Fields.{batch_size_bounds, parse-append}
use kafka_wire.Storage.Batches.{trim_loop, trim_to_batch_boundary}
use kafka_wire.Storage.Batches.Framing.{IsFramed-length}
use kafka_wire.Storage.Segment.{Segment, read_at, find_batch_at}
use kafka_wire.Storage.Log.{
  Log, first_whole, serve, base_of, fetch_from, fetch_at, find_segment, high_watermark,
}
use kafka_wire.Storage.Log.Place.{IsPlace, scan_start, find_batch_at-IsPlace}
use kafka_wire.Storage.Log.Fetch.{
  Whole, trim-Whole, read_at-front, parse-front, IsFetched, nothing-IsFetched, fetch_from-IsFetched,
}

-- The bytes behind a position.
abbrev pub behind : Segment → ℕ → List ℕ
behind s q = drop q s.log_file.content

-- There is no whole batch at a position: the segment ends there, or within the batch.
abbrev pub NoBatch : Segment → ℕ → Type 0
NoBatch s q =
    (s.log_size ≤ q)
    ⊎ ((length (behind s q) ≡ 0)
        ⊎ ((h : BatchHeader) × (parse_batch_header (behind s q) ≡ ok h)
            × ((s.log_size < q + batch_size h) ⊎ (length (behind s q) < batch_size h))))

-- Nothing was read, and there was nothing, or nothing was asked for.
abbrev pub ReadsNothing : Segment → ℕ → ℤ → ℕ → List ℕ → ℤ → Type 0
ReadsNothing s q offset max_bytes bytes first =
    (bytes ≡ []) × (first ≡ offset) × ((max_bytes ≡ 0) ⊎ NoBatch s q)

-- What stands behind the position, from the batch there on, and that batch's base offset.
abbrev pub ReadsBatches : Segment → ℕ → List ℕ → ℤ → Type 0
ReadsBatches s q bytes first =
    (k : ℕ) × (h : BatchHeader) × (bytes ≡ take k (behind s q))
    × (parse_batch_header bytes ≡ ok h)
    × (first ≡ h.base_offset)

abbrev pub IsRead : Segment → ℕ → ℤ → ℕ → List ℕ → ℤ → Type 0
IsRead s q offset max_bytes bytes first =
    ReadsNothing s q offset max_bytes bytes first ⊎ ReadsBatches s q bytes first

-- Whole batches that are not nothing begin with a header.
Whole-header :
    (bytes : List ℕ)
    → Whole bytes
    → length bytes ≢ 0
    → (h : BatchHeader) × (parse_batch_header bytes ≡ ok h)
Whole-header bytes ([], framed, same) some_byte = absurd (some_byte (ap length same))
Whole-header bytes (b ∷ batches, ((h, p, size), framed), same) some_byte = (
  h,
  ap parse_batch_header same ∙ parse-append b (concat batches) (IsFramed-length b (h, p, size)) ∙ p,
)

base_of-header :
    (bytes : List ℕ) (h : BatchHeader)
    → parse_batch_header bytes ≡ ok h
    → base_of bytes ≡ h.base_offset
unfolding base_of
base_of-header bytes h p = rw (base_of, p)

take-take : (a b : ℕ) (xs : List ℕ) → (k : ℕ) × (take a (take b xs) ≡ take k xs)
take-take zero b xs = (0, refl)
take-take (suc a) zero xs = (0, refl)
take-take (suc a) (suc b) [] = (0, refl)
take-take (suc a) (suc b) (x ∷ xs) = let (k, e) = take-take a b xs in (suc k, ap (λ t. x ∷ t) e)

-- Less was read than a batch takes.
cut_short :
    (k size rest log_size q : ℕ)
    → min k rest < size
    → k ≤ size
    → ((k ≡ size) ⊎ (log_size ≤ q + k))
    → (log_size < q + size) ⊎ (rest < size)
cut_short k size rest log_size q short le why = ground (arith, short, le, why)

not_short :
    (full : List ℕ) (h : BatchHeader)
    → ltb (length full) (batch_size h) ≡ false
    → batch_size h ≤ length full
not_short full h e = ground (arith, e)

first_whole-IsRead :
    (s : Segment) (q : ℕ) (offset : ℤ) (n max_bytes : ℕ) (bytes : List ℕ) (first : ℤ)
    → first_whole s q offset (take n (behind s q)) ≡ ok (bytes, first)
    → IsRead s q offset max_bytes bytes first
unfolding first_whole
first_whole-IsRead s q offset n max_bytes bytes first e =
    elim (Result-cases (parse_batch_header (take n (behind s q)))) [
      | inr (x, p) ↦ absurd (ground (arith, p, e))
      | inl (h, p) ↦
          let (k, front, le, why) = read_at-front s q (batch_size h) in
          let full = read_at s q (batch_size h) in
          let bounds = batch_size_bounds (take n (behind s q)) h p in
          let header : parse_batch_header (behind s q) ≡ ok h =
            sym (parse-front n (behind s q) (omega (arith, bounds))) ∙ p in
          elim (Bool-cases (ltb (length full) (batch_size h))) [
            | inl short ↦ inl (
              ground (arith, p, e, short),
              ground (arith, p, e, short),
              inr (
                  inr (
                    inr (
                      h,
                      header,
                      cut_short k (batch_size h) (length (behind s q)) s.log_size q
                          (omega
                            (arith, ap length front, length-take k (behind s q), ltb→lt _ _ short))
                          le why,
                    ))),
            )
            | inr enough ↦
                let same : full ≡ bytes = ground (arith, p, e, enough) in
                let at : base_of full ≡ first = ground (arith, p, e, enough) in
                let parsed : parse_batch_header bytes ≡ ok h =
                  ap parse_batch_header (sym same ∙ front)
                  ∙ parse-front k (behind s q)
                      (omega (arith, ap length front, bounds, not_short full h enough))
                  ∙ header in
                inr (
                  k,
                  h,
                  sym same ∙ front,
                  parsed,
                  sym at ∙ base_of-header full h (ap parse_batch_header same ∙ parsed),
                )
          ]
    ]

serve-IsRead :
    (s : Segment) (q : ℕ) (offset : ℤ) (n max_bytes : ℕ) (trimmed bytes : List ℕ) (first : ℤ)
    → Whole trimmed
    → (k : ℕ) × (trimmed ≡ take k (behind s q))
    → serve s q offset (take n (behind s q)) trimmed ≡ ok (bytes, first)
    → IsRead s q offset max_bytes bytes first
unfolding serve
serve-IsRead s q offset n max_bytes [] bytes first w front e =
    first_whole-IsRead s q offset n max_bytes bytes first e
serve-IsRead s q offset n max_bytes (y ∷ ys) bytes first w (k, front) e =
    let (h, p) = Whole-header (y ∷ ys) w (omega arith) in
    let same : y ∷ ys ≡ bytes = ground (arith, e) in
    let at : base_of (y ∷ ys) ≡ first = ground (arith, e) in
    inr (
      k,
      h,
      sym same ∙ front,
      ap parse_batch_header (sym same) ∙ p,
      sym at ∙ base_of-header (y ∷ ys) h p,
    )

zero_length : (n : ℕ) → (n == 0) ≡ true → n ≡ 0
zero_length n e = ground arith

-- No byte was read.
nothing_there :
    (s : Segment) (q max_bytes n : ℕ)
    → min n (length (behind s q)) ≡ 0
    → ((n ≡ max_bytes) ⊎ (s.log_size ≤ q + n))
    → (max_bytes ≡ 0) ⊎ NoBatch s q
nothing_there s q max_bytes n none_read why =
    elim (where_from n (length (behind s q)) max_bytes s.log_size q none_read why) [
      | inl asked ↦ inl asked
      | inr (inl past) ↦ inr (inl past)
      | inr (inr end) ↦ inr (inr (inl end))
    ]
  where
    where_from :
        (n rest max_bytes log_size q : ℕ)
        → min n rest ≡ 0
        → ((n ≡ max_bytes) ⊎ (log_size ≤ q + n))
        → (max_bytes ≡ 0) ⊎ ((log_size ≤ q) ⊎ (rest ≡ 0))
    where_from n rest max_bytes log_size q none_read why = ground (arith, none_read, why)

fetch_from-IsRead :
    (s : Segment) (q : ℕ) (offset : ℤ) (max_bytes : ℕ) (bytes : List ℕ) (first : ℤ)
    → fetch_from s q offset max_bytes ≡ ok (bytes, first)
    → IsRead s q offset max_bytes bytes first
unfolding fetch_from trim_to_batch_boundary
fetch_from-IsRead s q offset max_bytes bytes first e =
    let (n, front, le, why) = read_at-front s q max_bytes in
    let buf = read_at s q max_bytes in
    elim (Bool-cases (length buf == 0)) [
      | inl empty ↦ inl (
        ground (arith, e, empty),
        ground (arith, e, empty),
        nothing_there s q max_bytes n
            (omega
              (arith, ap length front, length-take n (behind s q), zero_length (length buf) empty))
            why,
      )
      | inr some_byte ↦
          let served : serve s q offset buf (trim_to_batch_boundary buf) ≡ ok (bytes, first) =
            ground (arith, e, some_byte) in
          let (k, trimmed) = take-take (trim_loop (length buf) buf) n (behind s q) in
          serve-IsRead s q offset n max_bytes (trim_to_batch_boundary buf) bytes first
            (trim-Whole buf) (k, ap (λ t. take (trim_loop (length buf) buf) t) front ∙ trimmed)
            (subst (λ b. serve s q offset b (trim_to_batch_boundary buf) ≡ ok (bytes, first)) front
              served)
    ]

-- The log has no data at the offset.
abbrev pub NoData : Log → ℤ → Type 0
NoData l offset = (l.segments ≡ []) ⊎ (high_watermark l ≤ℤ offset)

-- The segment that the offset belongs to, the place in it that the scan from the index leads to, and
-- what is read there.
abbrev pub ReadsFrom : Log → ℤ → ℕ → List ℕ → ℤ → Type 0
ReadsFrom l offset max_bytes bytes first =
    (s : Segment) × (q : ℕ) × (find_segment l offset ≡ some s)
    × IsPlace s offset (scan_start s offset) q
    × IsRead s q offset max_bytes bytes first

abbrev pub IsServed : Log → ℤ → ℕ → List ℕ → ℤ → Type 0
IsServed l offset max_bytes bytes first =
    ((bytes ≡ []) × (first ≡ offset) × NoData l offset) ⊎ ReadsFrom l offset max_bytes bytes first

pub segments-cases :
    (segs : List Segment)
    → (segs ≡ []) ⊎ ((s : Segment) × (rest : List Segment) × (segs ≡ (s ∷ rest)))
segments-cases [] = inl refl
segments-cases (s ∷ rest) = inr (s, rest, refl)

fetch_at-cases :
    (l : Log) (offset : ℤ) (max_bytes : ℕ) (bytes : List ℕ) (first : ℤ)
    → fetch_at l offset max_bytes ≡ ok (bytes, first)
    → ((bytes ≡ []) × (first ≡ offset) × NoData l offset)
      ⊎ ((s : Segment) × (q : ℕ) × (find_segment l offset ≡ some s)
          × (find_batch_at s offset ≡ ok q)
          × (fetch_from s q offset max_bytes ≡ ok (bytes, first)))
unfolding fetch_at
fetch_at-cases l offset max_bytes bytes first e = elim (segments-cases l.segments) [
  | inl empty ↦ inl (ground (arith, empty, e), ground (arith, empty, e), inl empty)
  | inr (s, rest, full) ↦ elim (Option-cases (find_segment l offset)) [
    | inl missing ↦ elim (Bool-cases (leb_ℤ (high_watermark l) offset)) [
      | inl past ↦ inl (
        ground (arith, full, missing, past, e),
        ground (arith, full, missing, past, e),
        inr (ground (arith, past)),
      )
      | inr before ↦ absurd (ground (arith, full, missing, before, e))
    ]
    | inr (seg, found) ↦ elim (Result-cases (find_batch_at seg offset)) [
      | inr (x, k) ↦ absurd (ground (arith, full, found, k, e))
      | inl (q, k) ↦ inr (seg, q, found, k, ground (arith, full, found, k, e))
    ]
  ]
]

-- Of a fetch that succeeds.
pub fetch_at-IsServed :
    (l : Log) (offset : ℤ) (max_bytes : ℕ) (bytes : List ℕ) (first : ℤ)
    → fetch_at l offset max_bytes ≡ ok (bytes, first)
    → IsFetched max_bytes bytes × IsServed l offset max_bytes bytes first
fetch_at-IsServed l offset max_bytes bytes first e =
    elim (fetch_at-cases l offset max_bytes bytes first e) [
      | inl (none_read, at, why) ↦ (
        subst (IsFetched max_bytes) (sym none_read) (nothing-IsFetched max_bytes),
        inl (none_read, at, why),
      )
      | inr (s, q, found, place, served) ↦ (
        fetch_from-IsFetched s q offset max_bytes bytes first served,
        inr (
          s,
          q,
          found,
          find_batch_at-IsPlace s offset q place,
          fetch_from-IsRead s q offset max_bytes bytes first served,
        ),
      )
    ]
