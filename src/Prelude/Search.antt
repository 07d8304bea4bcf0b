-- ===== src/Prelude/Search.antt =====
-- sort.Search: the binary search of Go's standard library, over a test on indices.
use Prim.Native.Nat.{ℕ, zero, suc, ◌+◌, ◌-◌, ◌/◌, ◌≤◌}
use mathlib.Core.Path.{◌≡◌, refl}
use mathlib.Core.Logic.{◌⊎◌, inl, inr}
use mathlib.Core.Bool.{Bool, true, false}
use native.Mathlib.Omega.{arith}
use kafka_wire.Prelude.Tests.{ltb, if◌then◌else◌, Bool-cases}

-- One round halves `[i, j)`; `fuel` bounds the rounds.
search_loop : ℕ → (ℕ → Bool) → ℕ → ℕ → ℕ
search_loop zero f i j = i
search_loop (suc fuel) f i j =
    let upper = search_loop fuel f ((i + j) / 2 + 1) j in
    let lower = search_loop fuel f i ((i + j) / 2) in
    let rest = if f ((i + j) / 2) then lower else upper in if ltb i j then rest else i

unfoldable pub search : ℕ → (ℕ → Bool) → ℕ
unfolding search_loop
search n f = search_loop n f 0 n

-- The result is the border at which the test turns from false to true.
abbrev pub IsBorder : ℕ → (ℕ → Bool) → ℕ → Type 0
IsBorder n f k = (k ≤ n) × ((k ≡ 0) ⊎ (f (k - 1) ≡ false)) × ((k ≡ n) ⊎ (f k ≡ true))

add_sub_one : (m : ℕ) → m + 1 - 1 ≡ m
add_sub_one m = omega arith

search_loop-IsBorder :
    (fuel : ℕ) (f : ℕ → Bool) (n i j : ℕ)
    → j ≤ i + fuel
    → i ≤ j
    → j ≤ n
    → (i ≡ 0) ⊎ (f (i - 1) ≡ false)
    → (j ≡ n) ⊎ (f j ≡ true)
    → IsBorder n f (search_loop fuel f i j)
unfolding search_loop
search_loop-IsBorder zero f n i j hf hij hn hi hj = ground arith
search_loop-IsBorder (suc fuel) f n i j hf hij hn hi hj = elim (Bool-cases (ltb i j)) [
  | inr done ↦ ground arith
  | inl more ↦ elim (Bool-cases (f ((i + j) / 2))) [
    | inl low ↦
        rw (more, low)
          (search_loop-IsBorder fuel f n i ((i + j) / 2) (ground arith) (ground arith)
            (ground arith) hi (inr low))
    | inr high ↦
        rw (more, high)
          (search_loop-IsBorder fuel f n ((i + j) / 2 + 1) j (ground arith) (ground arith) hn
            (inr (rw (add_sub_one ((i + j) / 2)) high)) hj)
  ]
]

pub search-IsBorder : (n : ℕ) (f : ℕ → Bool) → IsBorder n f (search n f)
unfolding search
search-IsBorder n f =
    search_loop-IsBorder n f n 0 n (omega arith) (omega arith) (omega arith) (inl refl) (inl refl)
