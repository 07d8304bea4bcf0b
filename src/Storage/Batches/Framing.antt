-- ===== src/Storage/Batches/Framing.antt =====
-- A framed batch at the front of a buffer is what the walks cut off first.
use kafka_wire.Prelude.{
  ℕ, ◌≤◌, ◌≡◌, ◌≢◌, ap, ◌∙◌, sym, inl, inr, List, ◌++◌, length, take, drop, arith, length-append,
  length-take, take-append-drop,
}
use kafka_wire.Prelude.Result.{ok, err, Result-cases}
use kafka_wire.Storage.Record.{BatchHeader, parse_batch_header, batch_size}
use kafka_wire.Storage.Record.Fields.{batch_size_bounds, parse-append, parse-take}
use kafka_wire.Storage.Batches.{IsFramed, next_size, out_of_fuel}

pub IsFramed-length : (b : List ℕ) → IsFramed b → 61 ≤ length b
IsFramed-length b (h, e, s) = omega (arith, batch_size_bounds b h e)

-- At a framed batch a round of either walk takes that batch.
pub next_size-framed : (b rest : List ℕ) → IsFramed b → next_size (b ++ rest) ≡ ok (length b)
unfolding next_size
next_size-framed b rest (h, e, s) =
    rw front (ground (arith, batch_size_bounds b h e, length-append b rest))
  where
    front : parse_batch_header (take 61 (b ++ rest)) ≡ ok h
    front =
        parse-take (b ++ rest) (omega (arith, batch_size_bounds b h e, length-append b rest))
        ∙ parse-append b rest (omega (arith, batch_size_bounds b h e))
        ∙ e

-- What the walk cuts off is framed.
take-IsFramed :
    (rest : List ℕ) (h : BatchHeader)
    → 61 ≤ length rest
    → parse_batch_header (take 61 rest) ≡ ok h
    → batch_size h ≤ length rest
    → IsFramed (take (batch_size h) rest)
take-IsFramed rest h whole e fits = (h, front, omega (arith, length-take (batch_size h) rest))
  where
    long : 61 ≤ length (take (batch_size h) rest)
    long = omega (arith, batch_size_bounds _ h e, length-take (batch_size h) rest)

    front : parse_batch_header (take (batch_size h) rest) ≡ ok h
    front =
        sym (parse-append (take (batch_size h) rest) (drop (batch_size h) rest) long)
        ∙ ap parse_batch_header (take-append-drop (batch_size h) rest)
        ∙ sym (parse-take rest whole)
        ∙ e

next_size-cases :
    (rest : List ℕ) (n : ℕ)
    → next_size rest ≡ ok n
    → (h : BatchHeader) × (61 ≤ length rest)
      × (parse_batch_header (take 61 rest) ≡ ok h)
      × (n ≡ batch_size h)
      × (n ≤ length rest)
unfolding next_size
next_size-cases rest n e = elim (Result-cases (parse_batch_header (take 61 rest))) [
  | inr (x, p) ↦ ground arith
  | inl (h, p) ↦ (h, ground arith, p, ground arith, ground arith)
]

-- A round that goes on takes a framed batch.
pub next_size_ok :
    (rest : List ℕ) (n : ℕ)
    → next_size rest ≡ ok n
    → IsFramed (take n rest) × (61 ≤ n) × (n ≤ length rest)
next_size_ok rest n e =
    let (h, whole, p, eq, fits) = next_size-cases rest n e in
    rw eq (
      take-IsFramed rest h whole p (omega arith),
      omega (arith, batch_size_bounds _ h p),
      omega arith,
    )

pub next_size-ne-out_of_fuel : (rest : List ℕ) → next_size rest ≢ err out_of_fuel
unfolding next_size
next_size-ne-out_of_fuel rest e = ground arith
