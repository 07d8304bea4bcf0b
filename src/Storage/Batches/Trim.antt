-- ===== src/Storage/Batches/Trim.antt =====
-- The cut of `trimToBatchBoundary` keeps the complete batches at the front, and all of them.
use kafka_wire.Prelude.{
  ℕ, zero, suc, ◌+◌, ◌≤◌, ◌≡◌, refl, ap, ◌∙◌, sym, List, [], ◌∷◌, ◌++◌, length, take, drop, concat,
  All, arith, inl, inr, length-append, take-append, drop-append, append_assoc, take-append-drop,
}
use kafka_wire.Prelude.Result.{ok, Result-cases}
use kafka_wire.Storage.Batches.{next_size, trim_loop, trim_to_batch_boundary, IsFramed}
use kafka_wire.Storage.Batches.Framing.{IsFramed-length, next_size-framed, next_size_ok}

-- No complete batch stands at the front.
abbrev pub IsTorn : List ℕ → Type 0
IsTorn tail = (b rest : List ℕ) → IsFramed b → ¬ (tail ≡ b ++ rest)

trim_loop_torn : (fuel : ℕ) (tail : List ℕ) → IsTorn tail → trim_loop fuel tail ≡ 0
unfolding trim_loop
trim_loop_torn zero tail torn = refl
trim_loop_torn (suc fuel) tail torn = elim (Result-cases (next_size tail)) [
  | inr (x, p) ↦ rw (p, trim_loop)
  | inl (n, p) ↦
      absurd
        (torn (take n tail) (drop n tail) (next_size_ok tail n p).0 (sym (take-append-drop n tail)))
]

trim_loop_step :
    (fuel : ℕ) (rest : List ℕ) (n : ℕ)
    → next_size rest ≡ ok n
    → trim_loop (suc fuel) rest ≡ n + trim_loop fuel (drop n rest)
unfolding trim_loop
trim_loop_step fuel rest n p = rw (p, trim_loop)

trim_loop_lem :
    (fuel : ℕ) (batches : List (List ℕ)) (tail : List ℕ)
    → length (concat batches) ≤ fuel
    → All IsFramed batches
    → IsTorn tail
    → trim_loop fuel (concat batches ++ tail) ≡ length (concat batches)
unfolding trim_loop
trim_loop_lem fuel [] tail hf framed torn = trim_loop_torn fuel tail torn
trim_loop_lem zero (b ∷ batches) tail hf framed torn =
    absurd (omega (arith, IsFramed-length b framed.0, length-append b (concat batches)))
trim_loop_lem (suc fuel) (b ∷ batches) tail hf framed torn = omega (
  arith,
  trim_loop_step fuel ((b ++ concat batches) ++ tail) (length b) (
      ap next_size (append_assoc b (concat batches) tail)
      ∙ next_size-framed b (concat batches ++ tail) framed.0),
  ap (trim_loop fuel) rest,
  trim_loop_lem fuel batches tail
      (omega (arith, hf, IsFramed-length b framed.0, length-append b (concat batches))) framed.1
      torn,
  length-append b (concat batches),
)
  where
    rest : drop (length b) ((b ++ concat batches) ++ tail) ≡ concat batches ++ tail
    rest =
        ap (drop (length b)) (append_assoc b (concat batches) tail)
        ∙ drop-append (length b) b (concat batches ++ tail) refl

-- Of framed batches followed by bytes that start with no framed batch, the cut keeps exactly the
-- framed batches.
pub trim_to_batch_boundary_lem :
    (batches : List (List ℕ)) (tail : List ℕ)
    → All IsFramed batches
    → IsTorn tail
    → trim_to_batch_boundary (concat batches ++ tail) ≡ concat batches
unfolding trim_to_batch_boundary
trim_to_batch_boundary_lem batches tail framed torn =
    ap (λ n. take n (concat batches ++ tail))
      (trim_loop_lem (length (concat batches ++ tail)) batches tail
        (omega (arith, length-append (concat batches) tail)) framed torn)
    ∙ take-append (length (concat batches)) (concat batches) tail refl
