-- ===== src/Storage/Log/Fetch.antt =====
-- What `FetchAt` reads from one segment: whole batches within the limit.
use kafka_wire.Prelude.{
  ℕ, zero, suc, ◌+◌, ◌-◌, ◌≤◌, ◌≡◌, refl, ap, ◌∙◌, sym, subst, ◌⊎◌, inl, inr, List, [], ◌∷◌, ◌++◌,
  All, arith, length, take, drop, concat, append-nil, length-take, take-append-drop, leb, ltb, ◌==◌,
  Bool-cases,
}
use kafka_wire.Prelude.Result.{ok, err, Result-cases}
use kafka_wire.Prelude.Int.{ℤ}
use kafka_wire.Storage.Record.{BatchHeader, parse_batch_header, batch_size}
use kafka_wire.Storage.Record.Fields.{batch_size_bounds, parse-append}
use kafka_wire.Storage.Batches.{IsFramed, SplitError, next_size, trim_loop, trim_to_batch_boundary}
use kafka_wire.Storage.Batches.Framing.{next_size_ok}
use kafka_wire.Storage.Segment.{Segment, read_at}
use kafka_wire.Storage.Log.{first_whole, serve, fetch_from}

take_nil {ℓ} : {A : Type ℓ} (m : ℕ) → take {A = A} m [] ≡ []
take_nil zero = refl
take_nil (suc m) = refl

take-plus {ℓ} :
    {A : Type ℓ} (n m : ℕ) (xs : List A) → take (n + m) xs ≡ take n xs ++ take m (drop n xs)
take-plus zero m xs = ap (λ k. take k xs) {x = 0 + m} {y = m} (omega arith)
take-plus (suc n) m [] =
    ap (λ k. take k []) {x = suc n + m} {y = suc (n + m)} (omega arith) ∙ sym (take_nil m)
take-plus (suc n) m (x ∷ xs) =
    ap (λ k. take k (x ∷ xs)) {x = suc n + m} {y = suc (n + m)} (omega arith)
    ∙ ap (λ t. x ∷ t) (take-plus n m xs)

abbrev pub Whole : List ℕ → Type 0
Whole bytes = (batches : List (List ℕ)) × All IsFramed batches × (bytes ≡ concat batches)

trim_loop-stop :
    (fuel : ℕ) (rest : List ℕ) (x : SplitError)
    → next_size rest ≡ err x
    → trim_loop (suc fuel) rest ≡ 0
unfolding trim_loop
trim_loop-stop fuel rest x p = rw (p, trim_loop)

trim_loop-more :
    (fuel n : ℕ) (rest : List ℕ)
    → next_size rest ≡ ok n
    → trim_loop (suc fuel) rest ≡ n + trim_loop fuel (drop n rest)
unfolding trim_loop
trim_loop-more fuel n rest p = rw (p, trim_loop)

trim_loop-Whole : (fuel : ℕ) (rest : List ℕ) → Whole (take (trim_loop fuel rest) rest)
trim_loop-Whole zero rest = ([], tt, unfold trim_loop in refl)
trim_loop-Whole (suc fuel) rest = elim (Result-cases (next_size rest)) [
  | inr (x, p) ↦ ([], tt, ap (λ k. take k rest) (trim_loop-stop fuel rest x p))
  | inl (n, p) ↦
      let (batches, framed, same) = trim_loop-Whole fuel (drop n rest) in
      (
        take n rest ∷ batches,
        ((next_size_ok rest n p).0, framed),
        ap (λ k. take k rest) (trim_loop-more fuel n rest p)
            ∙ take-plus n (trim_loop fuel (drop n rest)) rest
            ∙ ap (λ t. take n rest ++ t) same,
      )
]

pub trim-Whole : (buf : List ℕ) → Whole (trim_to_batch_boundary buf)
unfolding trim_to_batch_boundary
trim-Whole buf = trim_loop-Whole (length buf) buf

-- What `ReadAt` returns: a front part of the log behind the position, within the limit.
pub read_at-front :
    (s : Segment) (position max_bytes : ℕ)
    → (n : ℕ) × (read_at s position max_bytes ≡ take n (drop position s.log_file.content))
      × (n ≤ max_bytes)
      × ((n ≡ max_bytes) ⊎ (s.log_size ≤ position + n))
unfolding read_at
read_at-front s position max_bytes = elim (Bool-cases (leb s.log_size position)) [
  | inl past ↦ (0, rw past, omega arith, inr (ground (arith, past)))
  | inr inside ↦ elim (Bool-cases (ltb s.log_size (position + max_bytes))) [
    | inl clipped ↦ (
      s.log_size - position,
      rw (inside, clipped),
      ground (arith, inside, clipped),
      inr (ground (arith, inside)),
    )
    | inr full ↦ (max_bytes, rw (inside, full), omega arith, inl refl)
  ]
]

pub parse-front :
    (n : ℕ) (bytes : List ℕ)
    → 61 ≤ length (take n bytes)
    → parse_batch_header (take n bytes) ≡ parse_batch_header bytes
parse-front n bytes whole =
    sym (parse-append (take n bytes) (drop n bytes) whole)
    ∙ ap parse_batch_header (take-append-drop n bytes)

-- A front part of some bytes that is as long as its header says.
front-IsFramed :
    (bytes : List ℕ) (n k : ℕ) (h : BatchHeader)
    → parse_batch_header (take n bytes) ≡ ok h
    → k ≤ batch_size h
    → batch_size h ≤ length (take k bytes)
    → IsFramed (take k bytes)
front-IsFramed bytes n k h p le ge =
    let bounds = batch_size_bounds (take n bytes) h p in
    (
      h,
      parse-front k bytes (omega (arith, bounds))
          ∙ sym (parse-front n bytes (omega (arith, bounds)))
          ∙ p,
      omega (arith, length-take k bytes),
    )

abbrev pub IsFetched : ℕ → List ℕ → Type 0
IsFetched max_bytes bytes =
    (batches : List (List ℕ)) × All IsFramed batches
    × (bytes ≡ concat batches)
    × ((length bytes ≤ max_bytes) ⊎ (length batches ≡ 1))

pub nothing-IsFetched : (max_bytes : ℕ) → IsFetched max_bytes []
nothing-IsFetched max_bytes = ([], tt, refl, inl (omega arith))

first_whole-IsFetched :
    (seg : Segment) (start : ℕ) (offset : ℤ) (n max_bytes : ℕ) (bytes : List ℕ) (first : ℤ)
    → first_whole seg start offset (take n (drop start seg.log_file.content)) ≡ ok (bytes, first)
    → IsFetched max_bytes bytes
unfolding first_whole
first_whole-IsFetched seg start offset n max_bytes bytes first e =
    elim (Result-cases (parse_batch_header (take n (drop start seg.log_file.content)))) [
      | inr (x, p) ↦ absurd (ground (arith, p, e))
      | inl (h, p) ↦
          elim (Bool-cases (ltb (length (read_at seg start (batch_size h))) (batch_size h))) [
            | inl short ↦
                let same : [] ≡ bytes = ground (arith, p, e, short) in
                subst (IsFetched max_bytes) same (nothing-IsFetched max_bytes)
            | inr enough ↦
                let (k, front, le, why) = read_at-front seg start (batch_size h) in
                let same : read_at seg start (batch_size h) ≡ bytes =
                  ground (arith, p, e, enough) in
                let framed =
                  front-IsFramed (drop start seg.log_file.content) n k h p le
                    (ground (arith, enough, front)) in
                (
                  bytes ∷ [],
                  (subst IsFramed (sym front ∙ same) framed, tt),
                  sym (append-nil bytes),
                  inr (omega arith),
                )
          ]
    ]

serve-IsFetched :
    (seg : Segment) (start : ℕ) (offset : ℤ) (n max_bytes : ℕ) (trimmed bytes : List ℕ) (first : ℤ)
    → Whole trimmed
    → length trimmed ≤ max_bytes
    → serve seg start offset (take n (drop start seg.log_file.content)) trimmed ≡ ok (bytes, first)
    → IsFetched max_bytes bytes
unfolding serve
serve-IsFetched seg start offset n max_bytes [] bytes first w le e =
    first_whole-IsFetched seg start offset n max_bytes bytes first e
serve-IsFetched seg start offset n max_bytes (y ∷ ys) bytes first (batches, framed, same) le e =
    let here : y ∷ ys ≡ bytes = ground (arith, e) in
    (batches, framed, sym here ∙ same, inl (ground (arith, here, le)))

trim-le : (buf : List ℕ) → length (trim_to_batch_boundary buf) ≤ length buf
unfolding trim_to_batch_boundary
trim-le buf = omega (arith, length-take (trim_loop (length buf) buf) buf)

pub fetch_from-IsFetched :
    (seg : Segment) (start : ℕ) (offset : ℤ) (max_bytes : ℕ) (bytes : List ℕ) (first : ℤ)
    → fetch_from seg start offset max_bytes ≡ ok (bytes, first)
    → IsFetched max_bytes bytes
unfolding fetch_from
fetch_from-IsFetched seg start offset max_bytes bytes first e =
    let (n, front, le, why) = read_at-front seg start max_bytes in
    let buf = read_at seg start max_bytes in
    elim (Bool-cases (length buf == 0)) [
      | inl empty ↦
          let same : [] ≡ bytes = ground (arith, e, empty) in
          subst (IsFetched max_bytes) same (nothing-IsFetched max_bytes)
      | inr some_byte ↦
          let served : serve seg start offset buf (trim_to_batch_boundary buf) ≡ ok (bytes, first) =
            ground (arith, e, some_byte) in
          serve-IsFetched seg start offset n max_bytes (trim_to_batch_boundary buf) bytes first
            (trim-Whole buf)
            (omega (
              arith,
              trim-le buf,
              ap length front,
              length-take n (drop start seg.log_file.content),
              le,
            ))
            (subst (λ b. serve seg start offset b (trim_to_batch_boundary buf) ≡ ok (bytes, first))
              front served)
    ]
