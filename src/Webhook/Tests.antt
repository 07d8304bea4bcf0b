-- ===== src/Webhook/Tests.antt =====
-- A queue with a claim left over from a crash, and an endpoint that is down at first.
use kafka_wire.Prelude.{
  ℕ, zero, suc, ◌≡◌, ◌≢◌, refl, inr, Bool, true, false, List, [], ◌∷◌, ◌++◌, none, some, All, arith,
}
use kafka_wire.Webhook.Dlq.{
  Queue, Outcome, split_lines, ends_line, contents, is_blank, records_of, append_raw, fold_back,
  claim_file, replay, finish,
}
use kafka_wire.Webhook.Dlq.Outcome.{delivered, failed}
use kafka_wire.Webhook.Lines.{lines_of, TrimsBlanks}
use kafka_wire.Webhook.Replay.{Accounts, records, redeliver-Accounts}

abbrev never : ℕ → Bool
never i = false

abbrev topic : List ℕ
topic = 116 ∷ 46 ∷ []

no_colon : All (λ c. c ≢ 58) topic
no_colon = ((λ e. ground (arith, e)), ((λ e. ground (arith, e)), tt))

abbrev as_it_is : List ℕ → List ℕ
as_it_is line = line

nothing_blank : (bytes : List ℕ) → is_blank as_it_is bytes ≡ true → lines_of as_it_is bytes ≡ []
unfolding is_blank split_lines records_of
nothing_blank [] h = refl
nothing_blank (c ∷ cs) h = absurd (ground (arith, h))

as_it_is-TrimsBlanks : TrimsBlanks as_it_is
as_it_is-TrimsBlanks = record { trims_nothing = refl; blank_lines = nothing_blank }

-- One record in the file, one in the claim.
abbrev queue : Queue
queue = record { file = some (1 ∷ 10 ∷ []); claim = some (2 ∷ 10 ∷ []); busy = false }

abbrev claimed : Queue
claimed = record { file = none; claim = some (1 ∷ 10 ∷ 2 ∷ 10 ∷ []); busy = true }

taken : claim_file as_it_is queue ≡ (claimed, true)
unfolding claim_file fold_back append_raw is_blank ends_line
taken = refl

-- The first record is delivered, the others fail.
abbrev only_first : ℕ → List ℕ → Outcome
only_first zero line = delivered
only_first (suc i) line = failed none

run : replay as_it_is never only_first 0 (split_lines (contents claimed.claim)) ≡ ((2 ∷ []) ∷ [], 1)
unfolding replay split_lines is_blank
run = refl

one_record : All (λ k. lines_of as_it_is k ≡ k ∷ []) ((2 ∷ []) ∷ [])
unfolding split_lines records_of is_blank
one_record = (refl, tt)

redeliver-Accounts_example :
    (lines_of as_it_is (contents claimed.claim) ≡ records as_it_is queue)
    × Accounts only_first (records as_it_is queue) ((2 ∷ []) ∷ []) 1
    × (lines_of as_it_is (
          contents
            (finish as_it_is ((2 ∷ []) ∷ []) (record claimed { file = some (3 ∷ 10 ∷ []) })).file)
        ≡ lines_of as_it_is (3 ∷ 10 ∷ []) ++ ((2 ∷ []) ∷ []))
redeliver-Accounts_example =
    redeliver-Accounts as_it_is never only_first queue claimed (some (3 ∷ 10 ∷ [])) ((2 ∷ []) ∷ [])
      1 as_it_is-TrimsBlanks (inr (1 ∷ [], refl)) taken run (inr (3 ∷ [], refl)) one_record
