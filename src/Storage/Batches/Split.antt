-- ===== src/Storage/Batches/Split.antt =====
-- The walk of `splitBatches` finds the one way to cut its input into framed batches.
use kafka_wire.Prelude.{
  ℕ, zero, suc, ◌≤◌, ◌≡◌, ◌≢◌, ◌↔◌, refl, ap, ◌∙◌, sym, List, [], ◌∷◌, ◌++◌, length, take, drop,
  concat, All, arith, inl, inr, length-append, length-drop, take-append-drop, take-append,
  drop-append, subst,
}
use kafka_wire.Prelude.Result.{ok, err, map_ok, map_ok-err, Result-cases}
use kafka_wire.Storage.Batches.{
  SplitError, out_of_fuel, next_size, split_loop, split_batches, IsFramed,
}
use kafka_wire.Storage.Batches.Framing.{
  IsFramed-length, next_size-framed, next_size_ok, next_size-ne-out_of_fuel,
}

split_loop_stop :
    (fuel b : ℕ) (bs : List ℕ) (x : SplitError)
    → next_size (b ∷ bs) ≡ err x
    → split_loop (suc fuel) (b ∷ bs) ≡ err x
unfolding split_loop
split_loop_stop fuel b bs x p = rw (p, split_loop)

split_loop_step :
    (fuel b : ℕ) (bs : List ℕ) (n : ℕ)
    → next_size (b ∷ bs) ≡ ok n
    → split_loop (suc fuel) (b ∷ bs)
      ≡ map_ok (λ later. take n (b ∷ bs) ∷ later) (split_loop fuel (drop n (b ∷ bs)))
unfolding split_loop
split_loop_step fuel b bs n p = rw (p, split_loop)

split_loop_sound :
    (fuel : ℕ) (rest : List ℕ) (out : List (List ℕ))
    → split_loop fuel rest ≡ ok out
    → (concat out ≡ rest) × All IsFramed out
unfolding split_loop
split_loop_sound fuel [] out e = let nothing : out ≡ [] = cc in rw nothing (refl, tt)
split_loop_sound zero (b ∷ bs) out e = cc
split_loop_sound (suc fuel) (b ∷ bs) out e = elim (Result-cases (next_size (b ∷ bs))) [
  | inr (x, p) ↦ cc (split_loop_stop fuel b bs x p)
  | inl (n, p) ↦ elim (Result-cases (split_loop fuel (drop n (b ∷ bs)))) [
    | inr (x, q) ↦ cc (split_loop_step fuel b bs n p, ap (map_ok (λ l. take n (b ∷ bs) ∷ l)) q)
    | inl (later, q) ↦
        let (joined, framed) = split_loop_sound fuel (drop n (b ∷ bs)) later q in
        let shape : out ≡ take n (b ∷ bs) ∷ later =
          cc (split_loop_step fuel b bs n p, ap (map_ok (λ l. take n (b ∷ bs) ∷ l)) q) in
        rw shape (
          (ap (λ t. take n (b ∷ bs) ++ t) joined ∙ take-append-drop n (b ∷ bs)),
          ((next_size_ok (b ∷ bs) n p).0, framed),
        )
  ]
]

split_loop_complete :
    (fuel : ℕ) (out : List (List ℕ))
    → length (concat out) ≤ fuel
    → All IsFramed out
    → split_loop fuel (concat out) ≡ ok out
unfolding split_loop
split_loop_complete fuel [] hf framed = refl
split_loop_complete fuel ([] ∷ out) hf framed = absurd (omega (arith, IsFramed-length [] framed.0))
split_loop_complete zero ((x ∷ b) ∷ out) hf framed = absurd (omega arith)
split_loop_complete (suc fuel) ((x ∷ b) ∷ out) hf framed =
    split_loop_step fuel x (b ++ concat out) (length (x ∷ b))
      (next_size-framed (x ∷ b) (concat out) framed.0)
    ∙ rw (
      take-append (length (x ∷ b)) (x ∷ b) (concat out) refl,
      drop-append (length (x ∷ b)) (x ∷ b) (concat out) refl,
      split_loop_complete fuel out (omega (arith, length-append b (concat out))) framed.1,
    )

split_loop-ne-out_of_fuel :
    (fuel : ℕ) (rest : List ℕ) → length rest ≤ fuel → split_loop fuel rest ≢ err out_of_fuel
unfolding split_loop
split_loop-ne-out_of_fuel fuel [] h e = cc
split_loop-ne-out_of_fuel zero (b ∷ bs) h e = absurd (omega arith)
split_loop-ne-out_of_fuel (suc fuel) (b ∷ bs) h e = elim (Result-cases (next_size (b ∷ bs))) [
  | inr (x, p) ↦ next_size-ne-out_of_fuel (b ∷ bs) (cc (split_loop_stop fuel b bs x p))
  | inl (n, p) ↦
      split_loop-ne-out_of_fuel fuel (drop n (b ∷ bs))
        (omega (arith, next_size_ok (b ∷ bs) n p, length-drop n (b ∷ bs)))
        (map_ok-err (split_loop fuel (drop n (b ∷ bs))) _ out_of_fuel
          (sym (split_loop_step fuel b bs n p) ∙ e))
]

-- The walk of `splitBatches` always ends: its fuel, the length of the input, is never used up. A size of
-- 0, which `TotalSize` has for a batch length of -12, would keep the walk where it is; the parser lets
-- through none below 61.
pub split_batches-ne-out_of_fuel : (data' : List ℕ) → split_batches data' ≢ err out_of_fuel
unfolding split_batches
split_batches-ne-out_of_fuel data' = split_loop-ne-out_of_fuel (length data') data' (omega arith)

-- `splitBatches` returns a list of batches exactly if they are framed and make up its input: the cut
-- is sound, complete, and the only one.
pub split_batches_iff :
    (data' : List ℕ) (out : List (List ℕ))
    → (split_batches data' ≡ ok out) ↔ ((concat out ≡ data') × All IsFramed out)
unfolding split_batches
split_batches_iff data' out = (
  split_loop_sound (length data') data' out,
  λ h.
      subst (λ d. split_loop (length d) d ≡ ok out) h.0
        (split_loop_complete (length (concat out)) out (omega arith) h.1),
)
