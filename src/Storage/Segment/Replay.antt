-- ===== src/Storage/Segment/Replay.antt =====
-- Appending batches one after the other, and scanning their concatenation, come to the same.
use kafka_wire.Prelude.{
  ℕ, zero, suc, ◌+◌, ◌≤◌, ◌≡◌, refl, ap, ◌∙◌, sym, inl, inr, false, List, [], ◌∷◌, ◌++◌, none, some,
  All, arith, length, take, drop, concat, ltb, if◌then◌else◌, length-append, append_assoc,
  append-nil, drop-append, take-append, subst,
}
use kafka_wire.Prelude.Result.{Result, ok, ◌>>=◌, Result-cases}
use kafka_wire.Storage.File.{write, write-end}
use kafka_wire.Storage.Record.{
  BatchHeader, decode_header, parse_batch_header, validate_crc, validate_batch_attributes,
  batch_size,
}
use kafka_wire.Storage.Record.Fields.{parse-IsParsed, batch_size_bounds, parse-take, parse-append}
use kafka_wire.Storage.Batches.{IsFramed}
use kafka_wire.Storage.Segment.{
  Segment, SegmentError, Appended, note_batch, good_batch, recover_loop, append,
}

-- One append after the other; the first error stops.
unfoldable pub append_all : (List ℕ → ℕ) → Segment → List (List ℕ) → Result SegmentError Segment
append_all crc32c s [] = ok s
append_all crc32c s (b ∷ bs) = do done ← append crc32c s b; append_all crc32c done.segment bs

-- The indexes and the tail offset after a run of batches from a position on.
unfoldable pub note_all : Segment → ℕ → List (List ℕ) → Segment
note_all s position [] = s
note_all s position (b ∷ bs) =
    note_all (note_batch s (decode_header b) position) (position + length b) bs

abbrev pub IsGood : (List ℕ → ℕ) → List ℕ → Type 0
IsGood crc32c b = IsFramed b × (validate_crc crc32c b ≡ ok tt)

both_fit {ℓ} :
    {A : Type ℓ} (n m : ℕ) (x y : A)
    → 61 ≤ n
    → m ≤ n
    → (if ltb n 61 then x else if ltb n m then x else y) ≡ y
both_fit n m x y h k = ground arith

module _ (crc32c : List ℕ → ℕ) where
  -- At a good batch the scan of `recover` goes on.
  good_batch-good :
      (b rest : List ℕ) → IsGood crc32c b → good_batch crc32c (b ++ rest) ≡ some (decode_header b)
  unfolding good_batch
  good_batch-good b rest ((h, e, s), valid) =
      let bounds = batch_size_bounds b h e in
      let front : parse_batch_header (take 61 (b ++ rest)) ≡ ok h =
        parse-take (b ++ rest) (omega (arith, bounds, length-append b rest))
        ∙ parse-append b rest (omega (arith, bounds))
        ∙ e in
      let body : take (batch_size h) (b ++ rest) ≡ b = take-append (batch_size h) b rest (sym s) in
      rw (front, body, valid)
        (both_fit (length (b ++ rest)) (batch_size h) none (some h)
            (omega (arith, bounds, length-append b rest)) (omega (arith, s, length-append b rest))
          ∙ ap some (parse-IsParsed b h e).fields)

  batch_size-decode : (b : List ℕ) → IsFramed b → batch_size (decode_header b) ≡ length b
  batch_size-decode b (h, e, s) = ap batch_size (sym (parse-IsParsed b h e).fields) ∙ s

  recover_loop-next :
      (fuel : ℕ) (s : Segment) (position : ℕ) (rest : List ℕ) (h : BatchHeader)
      → good_batch crc32c rest ≡ some h
      → recover_loop (suc fuel) crc32c s position rest
        ≡ recover_loop fuel crc32c
            (note_batch s h position)
            (position + batch_size h)
            (drop (batch_size h) rest)
  unfolding recover_loop
  recover_loop-next fuel s position rest h e = rw (e, recover_loop)

  recover_loop-stop :
      (fuel : ℕ) (s : Segment) (position : ℕ) (rest : List ℕ)
      → good_batch crc32c rest ≡ none
      → recover_loop fuel crc32c s position rest ≡ (s, position)
  unfolding recover_loop
  recover_loop-stop zero s position rest e = refl
  recover_loop-stop (suc fuel) s position rest e = rw (e, recover_loop)

  -- The scan takes the good batches at the front and stops at the rest.
  pub recover_loop-good :
      (fuel : ℕ) (s : Segment) (position : ℕ) (bs : List (List ℕ)) (torn : List ℕ)
      → length bs ≤ fuel
      → All (IsGood crc32c) bs
      → good_batch crc32c torn ≡ none
      → recover_loop fuel crc32c s position (concat bs ++ torn)
        ≡ (note_all s position bs, position + length (concat bs))
  unfolding note_all
  recover_loop-good fuel s position [] torn h good stop =
      recover_loop-stop fuel s position torn stop ∙ ap (λ n. (s, n)) (omega arith)
  recover_loop-good zero s position (b ∷ bs) torn h good stop = absurd (omega arith)
  recover_loop-good (suc fuel) s position (b ∷ bs) torn h good stop =
      ap (recover_loop (suc fuel) crc32c s position) (append_assoc b (concat bs) torn)
      ∙ recover_loop-next fuel s position (b ++ (concat bs ++ torn)) (decode_header b)
          (good_batch-good b (concat bs ++ torn) good.0)
      ∙ rw
          (
            batch_size-decode b good.0.0,
            drop-append (length b) b (concat bs ++ torn) refl,
            recover_loop-good fuel (note_batch s (decode_header b) position) (position + length b)
                bs torn (omega arith) good.1 stop,
          )
          (ap
            (λ n. (note_all (note_batch s (decode_header b) position) (position + length b) bs, n))
            (omega (arith, length-append b (concat bs))))

-- The segment with these bytes in its log, and its file positioned behind them.
abbrev pub with_log : Segment → List ℕ → Segment
with_log s bytes = record s {
  log_file = record { content = bytes; cursor = length bytes };
  log_size = length bytes;
}

append_ok :
    (crc32c : List ℕ → ℕ) (s : Segment) (b : List ℕ) (h : BatchHeader) (done : Appended)
    → parse_batch_header b ≡ ok h
    → append crc32c s b ≡ ok done
    → (s.sealed ≡ false)
      × (validate_crc crc32c b ≡ ok tt)
      × (validate_batch_attributes h.attributes ≡ ok tt)
      × (done.segment
          ≡ note_batch
              (record s { log_file = write s.log_file b; log_size = s.log_size + length b })
              h
              s.log_size)
unfolding append
append_ok crc32c s b h done p e = ground (arith, p)

note_batch-with_log :
    (s : Segment) (bytes : List ℕ) (h : BatchHeader) (position : ℕ)
    → note_batch (with_log s bytes) h position ≡ with_log (note_batch s h position) bytes
unfolding note_batch
note_batch-with_log s bytes h position = refl

append-step :
    (crc32c : List ℕ → ℕ) (s : Segment) (bytes b : List ℕ) (done : Appended)
    → IsFramed b
    → append crc32c (with_log s bytes) b ≡ ok done
    → (done.segment ≡ with_log (note_batch s (decode_header b) (length bytes)) (bytes ++ b))
      × IsGood crc32c b
append-step crc32c s bytes b done (h, p, size) e =
    let (_, valid, _, shape) = append_ok crc32c (with_log s bytes) b h done p e in
    (
      shape
          ∙ cc (
            write-end (with_log s bytes).log_file b refl,
            sym (length-append bytes b),
            note_batch-with_log s (bytes ++ b) h (length bytes),
            (parse-IsParsed b h p).fields,
          ),
      ((h, p, size), valid),
    )

-- What a run of appends leaves behind: the batches in the log, noted from its old end on.
pub append_all-shape :
    (crc32c : List ℕ → ℕ) (s s' : Segment) (bytes : List ℕ) (bs : List (List ℕ))
    → All IsFramed bs
    → append_all crc32c (with_log s bytes) bs ≡ ok s'
    → (s' ≡ with_log (note_all s (length bytes) bs) (bytes ++ concat bs)) × All (IsGood crc32c) bs
unfolding append_all note_all
append_all-shape crc32c s s' bytes [] framed e = (cc (append-nil bytes), tt)
append_all-shape crc32c s s' bytes (b ∷ bs) framed e =
    elim (Result-cases (append crc32c (with_log s bytes) b)) [
      | inr (x, p) ↦ cc (rw (p, ◌>>=◌) at e)
      | inl (done, p) ↦
          let (shape, good) = append-step crc32c s bytes b done framed.0 p in
          let e' : append_all crc32c done.segment bs ≡ ok s' = rw (p, ◌>>=◌) at e in
          let (final, rest) =
            append_all-shape crc32c (note_batch s (decode_header b) (length bytes)) s' (bytes ++ b)
              bs framed.1 (subst (λ t. append_all crc32c t bs ≡ ok s') shape e') in
          (cc (final, length-append bytes b, append_assoc bytes b (concat bs)), (good, rest))
    ]
