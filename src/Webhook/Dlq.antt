-- ===== src/Webhook/Dlq.antt =====
-- internal/webhook/forwarder.go: the dead letters of one subscription, a file of lines, and their
-- redelivery. `trim` is bytes.TrimSpace; what the JSON library and the endpoint make of a line is an
-- argument; calls of the operating system succeed.
use kafka_wire.Prelude.{
  ℕ, suc, ◌+◌, Bool, true, false, List, [], ◌∷◌, ◌++◌, Option, none, some, length, ◌==◌,
  if◌then◌else◌,
}

-- The canonical file, the claimed file, and the entry of `dlqBusy`.
pub record Queue : Type 0 where
  pub file : Option (List ℕ)
  pub claim : Option (List ℕ)
  pub busy : Bool

abbrev pub newline : ℕ
newline = 10

-- `bytes.Split(raw, "\n")`
abbrev pub onto_first : ℕ → List (List ℕ) → List (List ℕ)
onto_first c [] = (c ∷ []) ∷ []
onto_first c (l ∷ ls) = (c ∷ l) ∷ ls

unfoldable pub split_lines : List ℕ → List (List ℕ)
split_lines [] = [] ∷ []
split_lines (c ∷ cs) =
    let rest = split_lines cs in if c == newline then [] ∷ rest else onto_first c rest

-- `bytes.HasSuffix(data, "\n")`
unfoldable pub ends_line : List ℕ → Bool
ends_line [] = false
ends_line (c ∷ []) = c == newline
ends_line (c ∷ d ∷ cs) = ends_line (d ∷ cs)

abbrev pub contents : Option (List ℕ) → List ℕ
contents none = []
contents (some bytes) = bytes

-- `bytes.Join(kept, "\n")` with the newline behind it, of one line or more.
unfoldable pub join_lines : List (List ℕ) → List ℕ
join_lines [] = []
join_lines (l ∷ ls) = l ++ (newline ∷ join_lines ls)

-- What became of the line of a record: it is no entry, it was delivered, or it failed and was written
-- anew, if it could be.
pub data Outcome : Type 0 where
  unparseable delivered : Outcome
  failed : Option (List ℕ) → Outcome

module _ (trim : List ℕ → List ℕ) where
  unfoldable pub is_blank : List ℕ → Bool
  is_blank line = length (trim line) == 0

  -- The trimmed lines that are not empty.
  unfoldable pub records_of : List (List ℕ) → List (List ℕ)
  records_of [] = []
  records_of (l ∷ ls) = let rest = records_of ls in if is_blank l then rest else trim l ∷ rest

  unfoldable pub append_raw : Option (List ℕ) → List ℕ → Option (List ℕ)
  append_raw file bytes =
      if is_blank bytes
      then file
      else some (contents file ++ (if ends_line bytes then bytes else bytes ++ (newline ∷ [])))

  unfoldable pub dlq_count : Queue → ℕ
  dlq_count q = length (records_of (split_lines (contents q.file)))

  -- A leftover claim goes back to the file.
  unfoldable pub fold_back : Queue → Queue
  fold_back q = elim q.claim [
    | none ↦ q
    | some leftover ↦ record q { file = append_raw q.file leftover; claim = none }
  ]

  -- Redelivery up to the claim: refused while another one runs, and over at once with no file.
  unfoldable pub claim_file : Queue → Queue × Bool
  claim_file q =
      let folded = fold_back q in
      if q.busy then (q, false) else elim folded.file [
        | none ↦ (folded, false)
        | some bytes ↦ (record { file = none; claim = some bytes; busy = true }, true)
      ]

  -- The loop over the claimed lines, with the lines kept and how many were delivered.
  unfoldable pub replay :
      (ℕ → Bool) → (ℕ → List ℕ → Outcome) → ℕ → List (List ℕ) → List (List ℕ) × ℕ
  replay cancelled outcome i [] = ([], 0)
  replay cancelled outcome i (line ∷ lines) =
      let later = replay cancelled outcome (suc i) lines in
      let rest = records_of (line ∷ lines) in
      if is_blank line
      then later
      else if cancelled i
      then (rest, 0)
      else elim (outcome i (trim line)) [
        | unparseable ↦ (trim line ∷ later.0, later.1)
        | delivered ↦ (later.0, later.1 + 1)
        | failed written ↦ elim written [
          | none ↦ (trim line ∷ later.0, later.1)
          | some anew ↦ (anew ∷ later.0, later.1)
        ]
      ]

  -- The kept lines go behind what the file has by then; the claim is removed.
  unfoldable pub finish : List (List ℕ) → Queue → Queue
  finish kept q = record {
    file = elim kept [ [] ↦ q.file | l ∷ ls ↦ append_raw q.file (join_lines (l ∷ ls)) ];
    claim = none;
    busy = false;
  }

-- `appendDLQ` with the entry's line.
unfoldable pub append_dlq : List ℕ → Queue → Queue
append_dlq line q = record q { file = some (contents q.file ++ (line ++ (newline ∷ []))) }
