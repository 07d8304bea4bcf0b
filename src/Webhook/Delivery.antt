-- ===== src/Webhook/Delivery.antt =====
-- internal/webhook/forwarder.go: the attempts to deliver a record, and the key of a subscription. What the
-- endpoint answers to each attempt, and whether the wait before it is cut short, are arguments.
use kafka_wire.Prelude.{
  ℕ, suc, Bool, true, false, not, ◌&&◌, ◌||◌, List, [], ◌∷◌, ◌++◌, Option, none, some, leb, ltb,
  ◌==◌, if◌then◌else◌,
}

-- The response to a request, or no response.
pub data Response : Type 0 where
  status : ℕ → Response
  no_response : Response

pub data DeliveryError : Type 0 where
  http_status : ℕ → DeliveryError
  no_answer cancelled : DeliveryError

-- Whether to try again, and the error if there is one. Making the request succeeds.
unfoldable pub deliver_once : Response → Bool × Option DeliveryError
deliver_once no_response = (true, some no_answer)
deliver_once (status code) =
    if leb 200 code && ltb code 300
    then (false, none)
    else (ltb code 400 || leb 500 code, some (http_status code))

-- The waits before the attempts, in seconds.
abbrev pub delays : List ℕ
delays = 0 ∷ 1 ∷ 5 ∷ 30 ∷ 120 ∷ 300 ∷ []

-- `attempt` counts the attempts; `last` is the error of the one before.
unfoldable pub deliver_loop :
    (ℕ → Bool) → (ℕ → Response) → ℕ → List ℕ → Option DeliveryError → Option DeliveryError
deliver_loop stopped respond attempt [] last = last
deliver_loop stopped respond attempt (delay ∷ rest) last =
    let (retryable, failure) = deliver_once (respond attempt) in
    let again = deliver_loop stopped respond (suc attempt) rest failure in
    if ltb 0 delay && stopped attempt then some cancelled else elim failure [
      | none ↦ none
      | some e ↦ if not retryable && leb 1 attempt then some e else again
    ]

unfoldable pub deliver : (ℕ → Bool) → (ℕ → Response) → Option DeliveryError
deliver stopped respond = deliver_loop stopped respond 0 delays none

-- `topic + "::" + url`
abbrev pub subscription_key : List ℕ → List ℕ → List ℕ
subscription_key topic url = topic ++ (58 ∷ 58 ∷ url)

unfoldable pub split_key : List ℕ → List ℕ × List ℕ
split_key [] = ([], [])
split_key (c ∷ []) = (c ∷ [], [])
split_key (c ∷ d ∷ k) =
    let later = split_key (d ∷ k) in
    if (c == 58) && (d == 58) then ([], k) else (c ∷ later.0, later.1)
