-- ===== src/Webhook/Delivered.antt =====
-- internal/webhook/forwarder.go: when a delivery counts as one, and keys taken apart again.
use kafka_wire.Prelude.{
  ℕ, suc, ◌+◌, ◌<◌, ◌≤◌, ◌≡◌, ◌≢◌, refl, ap, ◌∙◌, sym, ◌⊎◌, inl, inr, Bool, false, not, ◌&&◌, List,
  [], ◌∷◌, Option, none, some, All, length, ◌==◌, ltb, leb, Bool-cases, Option-cases, arith,
}
use kafka_wire.Webhook.Delivery.{
  Response, DeliveryError, deliver_once, delays, deliver_loop, deliver, subscription_key, split_key,
}
use kafka_wire.Webhook.Delivery.Response.{status, no_response}
use kafka_wire.Webhook.Delivery.DeliveryError.{cancelled}

-- A response of the 200s.
abbrev pub IsAccepted : Response → Type 0
IsAccepted no_response = ⊥
IsAccepted (status code) = (200 ≤ code) × (code < 300)

deliver_once-IsAccepted : (r : Response) → (deliver_once r).1 ≡ none → IsAccepted r
unfolding deliver_once
deliver_once-IsAccepted no_response h = cc h
deliver_once-IsAccepted (status code) h = ground arith

failure : {e : DeliveryError} → some e ≡ none → ⊥
failure h = cc h

deliver_loop-IsAccepted :
    (stopped : ℕ → Bool) (respond : ℕ → Response) (attempt : ℕ) (ds : List ℕ)
    (last : Option DeliveryError)
    → deliver_loop stopped respond attempt ds last ≡ none
    → (last ≡ none) ⊎ ((k : ℕ) × (k < attempt + length ds) × IsAccepted (respond k))
unfolding deliver_loop
deliver_loop-IsAccepted stopped respond attempt [] last h = inl h
deliver_loop-IsAccepted stopped respond attempt (delay ∷ rest) last h =
    elim (Bool-cases (ltb 0 delay && stopped attempt)) [
      | inl e ↦ absurd (failure (rw (deliver_loop, e) at h))
      | inr e ↦ elim (Option-cases (deliver_once (respond attempt)).1) [
        | inl s ↦ inr (attempt, omega arith, deliver_once-IsAccepted (respond attempt) s)
        | inr (x, f) ↦ elim (Bool-cases (not (deliver_once (respond attempt)).0 && leb 1 attempt)) [
          | inl final ↦ absurd (failure (rw (deliver_loop, e, f, final) at h))
          | inr again ↦
              elim (deliver_loop-IsAccepted stopped respond (suc attempt) rest
                (deliver_once (respond attempt)).1 (rw (deliver_loop, e, f, again) at h)) [
                  | inl none_left ↦ absurd (failure (sym f ∙ none_left))
                  | inr (k, bound, accepted) ↦ inr (k, omega (arith, bound), accepted)
                ]
        ]
      ]
    ]

-- A delivery counts as one only if the endpoint answered one of the six attempts with a status of the
-- 200s.
pub deliver-IsAccepted :
    (stopped : ℕ → Bool) (respond : ℕ → Response)
    → deliver stopped respond ≡ none
    → (k : ℕ) × (k < 6) × IsAccepted (respond k)
unfolding deliver deliver_loop
deliver-IsAccepted stopped respond h =
    elim (deliver_loop-IsAccepted stopped respond 0 delays (some cancelled) h) [
      | inl e ↦ absurd (failure e)
      | inr found ↦ found
    ]

-- The key of a topic whose name has no colon comes apart into the topic and the URL, whatever the URL is.
pub split_key-subscription_key :
    (topic url : List ℕ)
    → All (λ c. c ≢ 58) topic
    → split_key (subscription_key topic url) ≡ (topic, url)
unfolding split_key
split_key-subscription_key [] url h = refl
split_key-subscription_key (c ∷ []) url h =
    let e : (c == 58) ≡ false = ground (arith, h.0) in rw e refl
split_key-subscription_key (c ∷ d ∷ topic) url h =
    let e : (c == 58) ≡ false = ground (arith, h.0) in
    rw e (ap (λ p. (c ∷ p.0, p.1)) (split_key-subscription_key (d ∷ topic) url h.1))
