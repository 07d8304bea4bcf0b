-- ===== src/Prelude/Map.antt =====
-- A Go map as an association list, for keys with a Boolean equality; strings as lists of bytes.
use Prim.Native.Nat.{ℕ}
use mathlib.Core.Path.{◌≡◌, refl, ap}
use mathlib.Core.Logic.{◌≢◌, inl, inr}
use mathlib.Core.Bool.{Bool, true, false, not, ◌&&◌, ◌||◌}
use mathlib.Core.Option.{Option, none, some}
use mathlib.Core.List.{List, [], ◌∷◌}
use native.Mathlib.Omega.{arith}
use kafka_wire.Prelude.Tests.{◌==◌, if◌then◌else◌, Bool-cases}

-- Equality of strings.
unfoldable pub same : List ℕ → List ℕ → Bool
same [] [] = true
same [] (y ∷ ys) = false
same (x ∷ xs) [] = false
same (x ∷ xs) (y ∷ ys) = x == y && same xs ys

pub same_refl : (xs : List ℕ) → same xs xs ≡ true
unfolding same
same_refl [] = refl
same_refl (x ∷ xs) = ground (arith, same_refl xs)

pub same_eq : (xs ys : List ℕ) → same xs ys ≡ true → xs ≡ ys
unfolding same
same_eq [] [] h = refl
same_eq [] (y ∷ ys) h = absurd cc
same_eq (x ∷ xs) [] h = absurd cc
same_eq (x ∷ xs) (y ∷ ys) h = ground (arith, same_eq xs ys)

pub same_ne : (xs ys : List ℕ) → xs ≢ ys → same xs ys ≡ false
same_ne xs ys h = elim (Bool-cases (same xs ys)) [
  | inl e ↦ absurd (h (same_eq xs ys e))
  | inr e ↦ e
]

pub ne_of_same : (xs ys : List ℕ) → same xs ys ≡ false → xs ≢ ys
ne_of_same xs ys h e = cc (ap (same xs) e, same_refl xs, h)

-- `v, ok := m[k]`
unfoldable pub find {ℓ κ} : {K : Type ℓ} {V : Type κ} → (K → K → Bool) → K → List (K × V) → Option V
find eqb k [] = none
find eqb k ((j, v) ∷ m) = let later = find eqb k m in if eqb j k then some v else later

-- `_, ok := m[k]`, and the key alone.
unfoldable pub has {ℓ κ} : {K : Type ℓ} {V : Type κ} → (K → K → Bool) → K → List (K × V) → Bool
has eqb k m = elim (find eqb k m) [ none ↦ false | some v ↦ true ]

-- `m[k] = v`
unfoldable pub put {ℓ κ} :
    {K : Type ℓ} {V : Type κ} → (K → K → Bool) → K → V → List (K × V) → List (K × V)
put eqb k v [] = (k, v) ∷ []
put eqb k v ((j, w) ∷ m) =
    let later = put eqb k v m in if eqb j k then (k, v) ∷ m else (j, w) ∷ later

-- `delete(m, k)`
unfoldable pub remove {ℓ κ} :
    {K : Type ℓ} {V : Type κ} → (K → K → Bool) → K → List (K × V) → List (K × V)
remove eqb k [] = []
remove eqb k ((j, v) ∷ m) = let later = remove eqb k m in if eqb j k then later else (j, v) ∷ later

-- The map that has equality of keys right.
pub record IsEqual {ℓ} {K : Type ℓ} (eqb : K → K → Bool) : Type ℓ where
  pub eq_refl : (k : K) → eqb k k ≡ true
  pub eq_of : (j k : K) → eqb j k ≡ true → j ≡ k

pub same-IsEqual : IsEqual same
same-IsEqual = record { eq_refl = same_refl; eq_of = same_eq }

module _ {ℓ κ} {K : Type ℓ} {V : Type κ} (eqb : K → K → Bool) (law : IsEqual eqb) where
  pub find-put_same : (k : K) (v : V) (m : List (K × V)) → find eqb k (put eqb k v m) ≡ some v
  unfolding find put
  find-put_same k v [] = rw (law.eq_refl k)
  find-put_same k v ((j, w) ∷ m) = elim (Bool-cases (eqb j k)) [
    | inl e ↦ rw (e, law.eq_refl k)
    | inr e ↦ rw (e, e) (find-put_same k v m)
  ]

  pub find-put_other :
      (k j : K) (v : V) (m : List (K × V))
      → eqb k j ≡ false
      → find eqb j (put eqb k v m) ≡ find eqb j m
  unfolding find put
  find-put_other k j v [] h = rw h
  find-put_other k j v ((i, w) ∷ m) h = elim (Bool-cases (eqb i k)) [
    | inl e ↦ rw (e, h, ap (λ i. eqb i j) (law.eq_of i k e), h)
    | inr e ↦ rw e (ap (λ o. if eqb i j then some w else o) (find-put_other k j v m h))
  ]

  pub find-remove_same : (k : K) (m : List (K × V)) → find eqb k (remove eqb k m) ≡ none
  unfolding find remove
  find-remove_same k [] = refl
  find-remove_same k ((j, v) ∷ m) = elim (Bool-cases (eqb j k)) [
    | inl e ↦ rw e (find-remove_same k m)
    | inr e ↦ rw (e, e) (find-remove_same k m)
  ]

  find-remove_other :
      (k j : K) (m : List (K × V)) → eqb k j ≡ false → find eqb j (remove eqb k m) ≡ find eqb j m
  unfolding find remove
  find-remove_other k j [] h = refl
  find-remove_other k j ((i, v) ∷ m) h = elim (Bool-cases (eqb i k)) [
    | inl e ↦ rw (e, ap (λ i. eqb i j) (law.eq_of i k e), h) (find-remove_other k j m h)
    | inr e ↦ rw e (ap (λ o. if eqb i j then some v else o) (find-remove_other k j m h))
  ]

  pub has-remove :
      (k j : K) (m : List (K × V)) → has eqb j (remove eqb k m) ≡ (has eqb j m && not (eqb k j))
  unfolding has
  has-remove k j m = elim (Bool-cases (eqb k j)) [
    | inl e ↦
        let here = law.eq_of k j e in
        ground (arith, e, here, find-remove_same j m, ap (λ i. find eqb j (remove eqb i m)) here)
    | inr e ↦ ground (arith, e, find-remove_other k j m e)
  ]

  pub has-put :
      (k j : K) (v : V) (m : List (K × V)) → has eqb j (put eqb k v m) ≡ (eqb k j || has eqb j m)
  unfolding has
  has-put k j v m = elim (Bool-cases (eqb k j)) [
    | inl e ↦
        let here = law.eq_of k j e in
        ground (arith, e, find-put_same j v m, ap (λ i. find eqb j (put eqb i v m)) here)
    | inr e ↦ ground (arith, e, find-put_other k j v m e)
  ]
