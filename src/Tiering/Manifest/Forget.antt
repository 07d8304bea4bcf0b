-- ===== src/Tiering/Manifest/Forget.antt =====
-- Forgetting a deleted topic.
use kafka_wire.Prelude.{
  ℕ, ◌≡◌, ◌≢◌, refl, ◌∙◌, sym, inl, inr, Bool, true, false, not, ◌&&◌, List, [], ◌∷◌, none, All,
  arith, Bool-cases,
}
use kafka_wire.Prelude.Int.{ℤ}
use kafka_wire.Prelude.Map.{same, same_refl, same_eq, same_ne}
use kafka_wire.Prelude.Select.{first, filter-All, first-filter}
use kafka_wire.Tiering.Manifest.{
  Manifest, is_at, lookup, all_for_topic, find_archived, forget_topic,
}

module _ {ℓ} {A : Type ℓ} where
  first-same : (p q : A → Bool) (xs : List A) → ((x : A) → p x ≡ q x) → first p xs ≡ first q xs
  unfolding first
  first-same p q [] h = refl
  first-same p q (x ∷ xs) h = cc (h x, first-same p q xs h)

  first-none : (p : A → Bool) (xs : List A) → ((x : A) → p x ≡ false) → first p xs ≡ none
  unfolding first
  first-none p [] h = refl
  first-none p (x ∷ xs) h = rw (h x) (first-none p xs h)

forgotten : (topic : List ℕ) (x : List ℕ) → not (same x topic) ≡ true → x ≢ topic
forgotten topic x h e = ground (arith, same_refl topic, e, h)

other :
    (topic kept x : List ℕ) (b : Bool)
    → kept ≢ topic
    → (not (same x topic) && (same x kept && b)) ≡ (same x kept && b)
other topic kept x b ne = elim (Bool-cases (same x kept)) [
  | inl e ↦ ground (arith, same_eq x kept e, same_ne kept topic ne, e)
  | inr e ↦ ground (arith, e)
]

own : (topic x : List ℕ) (b : Bool) → (not (same x topic) && (same x topic && b)) ≡ false
own topic x b = ground arith

pub forget_topic-none :
    (m : Manifest) (topic : List ℕ) (partition offset : ℤ)
    → find_archived (forget_topic m topic) topic partition offset ≡ none
unfolding forget_topic find_archived all_for_topic
forget_topic-none m topic partition offset =
    first-filter _ _ _
    ∙ first-filter _ _ m.completed
    ∙ first-none _ m.completed (λ e. own topic e.topic _)

-- Forgetting a topic leaves no archived segment and no upload of it, so that a later topic of the
-- name finds none of its segments; every other topic's segments are found as before, by base offset
-- and by an offset that they have.
pub forget_topic_lem :
    (m : Manifest) (topic kept : List ℕ) (partition offset : ℤ)
    → kept ≢ topic
    → All (λ e. e.topic ≢ topic) (forget_topic m topic).completed
      × All (λ p. p.1.topic ≢ topic) (forget_topic m topic).pending
      × (lookup (forget_topic m topic) topic partition offset ≡ none)
      × (find_archived (forget_topic m topic) topic partition offset ≡ none)
      × (lookup (forget_topic m topic) kept partition offset ≡ lookup m kept partition offset)
      × (find_archived (forget_topic m topic) kept partition offset
          ≡ find_archived m kept partition offset)
unfolding forget_topic lookup find_archived all_for_topic is_at
forget_topic_lem m topic kept partition offset ne = (
  filter-All _ _ m.completed (λ e h. forgotten topic e.topic h),
  filter-All _ _ m.pending (λ p h. forgotten topic p.1.topic h),
  first-filter _ _ m.completed ∙ first-none _ m.completed (λ e. own topic e.topic _),
  forget_topic-none m topic partition offset,
  first-filter _ _ m.completed ∙ first-same _ _ m.completed (λ e. other topic kept e.topic _ ne),
  first-filter _ _ _
      ∙ first-filter _ _ m.completed
      ∙ first-same _ _ m.completed (λ e. other topic kept e.topic _ ne)
      ∙ sym (first-filter _ _ m.completed),
)
