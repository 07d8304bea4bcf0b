-- ===== src/Prelude/Select.antt =====
-- The elements of a list that pass a test, and the first of them.
use mathlib.Core.Path.{◌≡◌, refl, ap}
use mathlib.Core.Logic.{inl, inr}
use mathlib.Core.Bool.{Bool, true, false, ◌&&◌}
use mathlib.Core.Option.{Option, none, some}
use mathlib.Core.List.{List, [], ◌∷◌, ◌++◌}
use kafka_wire.Prelude.Lists.{All}
use kafka_wire.Prelude.Tests.{if◌then◌else◌, Bool-cases}

unfoldable pub filter {ℓ} : {A : Type ℓ} → (A → Bool) → List A → List A
filter p [] = []
filter p (x ∷ xs) = let rest = filter p xs in if p x then x ∷ rest else rest

unfoldable pub first {ℓ} : {A : Type ℓ} → (A → Bool) → List A → Option A
first p [] = none
first p (x ∷ xs) = let later = first p xs in if p x then some x else later

module _ {ℓ} {A : Type ℓ} (q : A → Bool) where
  pub All-filter {κ} : (P : A → Type κ) (xs : List A) → All P xs → All P (filter q xs)
  unfolding filter
  All-filter P [] h = tt
  All-filter P (x ∷ xs) h = elim (Bool-cases (q x)) [
    | inl held ↦ rw held (h.0, All-filter P xs h.1)
    | inr out ↦ rw out (All-filter P xs h.1)
  ]

  pub filter-All {κ} :
      (P : A → Type κ) (xs : List A) → ((x : A) → q x ≡ true → P x) → All P (filter q xs)
  unfolding filter
  filter-All P [] h = tt
  filter-All P (x ∷ xs) h = elim (Bool-cases (q x)) [
    | inl held ↦ rw held (h x held, filter-All P xs h)
    | inr out ↦ rw out (filter-All P xs h)
  ]

  -- A search in what a filter leaves is one search.
  pub first-filter :
      (p : A → Bool) (xs : List A) → first p (filter q xs) ≡ first (λ x. q x && p x) xs
  unfolding filter first
  first-filter p [] = refl
  first-filter p (x ∷ xs) = elim (Bool-cases (q x)) [
    | inl held ↦ rw held (ap (λ o. if p x then some x else o) (first-filter p xs))
    | inr out ↦ rw out (first-filter p xs)
  ]

  pub first-snoc :
      (xs : List A) (e : A)
      → All (λ x. q x ≡ false) xs
      → q e ≡ true
      → first q (xs ++ (e ∷ [])) ≡ some e
  unfolding first
  first-snoc [] e h p = rw p
  first-snoc (x ∷ xs) e h p = rw h.0 (first-snoc xs e h.1 p)
