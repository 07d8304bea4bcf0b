-- ===== src/Prelude/Bytes.antt =====
-- encoding/binary's big-endian fields, over byte slices as lists of numbers.
use Prim.Native.Nat.{ℕ, zero, suc, ◌+◌, ◌-◌, ◌*◌, ◌/◌, ◌%◌, ◌^◌, ◌≤◌, ◌<◌}
use mathlib.Core.Path.{◌≡◌, refl, sym, ap, ◌∙◌}
use mathlib.Core.List.{List, [], ◌∷◌, ◌++◌}
use native.Mathlib.Omega.{arith}
use native.Mathlib.Nat.{pow-suc}
use kafka_wire.Prelude.Lists.{
  length, length-append, length-snoc, slice, All, take, drop, length-take, length-drop, drop-drop,
  drop-append, take-append, take-append-drop, slice-append_le,
}

abbrev pub IsByte : ℕ → Type 0
IsByte b = b < 256

be_from : ℕ → List ℕ → ℕ
be_from acc [] = acc
be_from acc (b ∷ bs) = be_from (acc * 256 + b) bs

-- `binary.BigEndian.UintN(b)` for a slice of N/8 bytes.
unfoldable pub be_uint : List ℕ → ℕ
unfolding be_from
be_uint bs = be_from 0 bs

-- `binary.BigEndian.PutUintN(b, v)` for a slice of `n` bytes.
unfoldable pub put_be : ℕ → ℕ → List ℕ
put_be zero v = []
put_be (suc n) v = put_be n (v / 256) ++ (v % 256 ∷ [])

pub length-put_be : (n v : ℕ) → length (put_be n v) ≡ n
unfolding put_be
length-put_be zero v = refl
length-put_be (suc n) v =
    omega (arith, length-snoc (put_be n (v / 256)) (v % 256), length-put_be n (v / 256))

be_from-snoc : (acc b : ℕ) (bs : List ℕ) → be_from acc (bs ++ (b ∷ [])) ≡ be_from acc bs * 256 + b
unfolding be_from
be_from-snoc acc b [] = refl
be_from-snoc acc b (x ∷ xs) = be_from-snoc (acc * 256 + x) b xs

-- What was put reads back, for a value that fits the field.
pub be_uint-put_be : (n v : ℕ) → v < 256 ^ n → be_uint (put_be n v) ≡ v
unfolding be_uint put_be
be_uint-put_be zero v h = omega arith
be_uint-put_be (suc n) v h =
    be_from-snoc 0 (v % 256) (put_be n (v / 256))
    ∙ omega (arith, be_uint-put_be n (v / 256) (omega (arith, pow-suc 256 n)))

pub put_be-IsByte : (n v : ℕ) → All IsByte (put_be n v)
unfolding put_be
put_be-IsByte zero v = tt
put_be-IsByte (suc n) v = snoc (put_be n (v / 256)) (put_be-IsByte n (v / 256))
  where
    snoc : (bs : List ℕ) → All IsByte bs → All IsByte (bs ++ (v % 256 ∷ []))
    snoc [] h = omega arith
    snoc (b ∷ bs) h = (h.0, snoc bs h.1)

-- `copy(xs[i:], bs)` into a slice that has room for it.
unfoldable pub put_at : ℕ → List ℕ → List ℕ → List ℕ
put_at i bs xs = take i xs ++ (bs ++ drop (i + length bs) xs)

module _ (i : ℕ) (bs xs : List ℕ) (room : i + length bs ≤ length xs) where
  pub length-put_at : length (put_at i bs xs) ≡ length xs
  unfolding put_at
  length-put_at = omega (
    arith,
    length-append (take i xs) (bs ++ drop (i + length bs) xs),
    length-append bs (drop (i + length bs) xs),
    length-take i xs,
    length-drop (i + length bs) xs,
  )

  pub drop-put_at_after : (a : ℕ) → i + length bs ≤ a → drop a (put_at i bs xs) ≡ drop a xs
  unfolding put_at
  drop-put_at_after a h =
      sym (drop-drop (a - i) i a (put_at i bs xs) (omega arith))
      ∙ ap (drop (a - i)) (drop-append i (take i xs) _ (omega (arith, length-take i xs)))
      ∙ sym (drop-drop (a - i - length bs) (length bs) (a - i) _ (omega arith))
      ∙ ap (drop (a - i - length bs)) (drop-append (length bs) bs _ refl)
      ∙ drop-drop (a - i - length bs) (i + length bs) a xs (omega arith)

  pub slice-put_at_after : (a b : ℕ) → i + length bs ≤ a → slice a b (put_at i bs xs) ≡ slice a b xs
  slice-put_at_after a b h = ap (take (b - a)) (drop-put_at_after a h)

  pub slice-put_at_self : slice i (i + length bs) (put_at i bs xs) ≡ bs
  unfolding put_at
  slice-put_at_self =
      ap (take (i + length bs - i)) (drop-append i (take i xs) _ (omega (arith, length-take i xs)))
      ∙ take-append (i + length bs - i) bs _ (omega arith)

  pub slice-put_at_before : (a b : ℕ) → b ≤ i → slice a b (put_at i bs xs) ≡ slice a b xs
  unfolding put_at
  slice-put_at_before a b h =
      slice-append_le a b (take i xs) _ (omega (arith, length-take i xs))
      ∙ sym (slice-append_le a b (take i xs) (drop i xs) (omega (arith, length-take i xs)))
      ∙ ap (slice a b) (take-append-drop i xs)
