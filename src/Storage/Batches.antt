-- ===== src/Storage/Batches.antt =====
-- Concatenated record batches: `splitBatches` of internal/wire/produce.go and `trimToBatchBoundary`
-- of internal/storage/log.go (internal/broker/restore_fetch.go repeats it). Both walk `data[pos:]`
-- from header to header; the list is what the walk has not reached. Every round takes 61 bytes at
-- least, so the length of the data is fuel enough (`Batches.Split.split_batches-ne-out_of_fuel`).
pub mod Framing
pub mod Split
pub mod Trim
mod Tests
use kafka_wire.Prelude.{
  ℕ, zero, suc, ◌+◌, ◌≡◌, List, [], ◌∷◌, length, take, drop, ltb, if◌then◌else◌,
}
use kafka_wire.Prelude.Result.{Result, ok, err, map_ok}
use kafka_wire.Storage.Record.{RecordError, BatchHeader, parse_batch_header, batch_size}

pub data SplitError : Type 0 where
  trailing_bytes overrun out_of_fuel : SplitError
  bad_header : RecordError → SplitError

-- The tests of one round on `data[pos:]`, and `hdr.TotalSize()`.
unfoldable pub next_size : List ℕ → Result SplitError ℕ
next_size rest =
    if ltb (length rest) 61 then err trailing_bytes else elim (parse_batch_header (take 61 rest)) [
      | err e ↦ err (bad_header e)
      | ok h ↦ if ltb (length rest) (batch_size h) then err overrun else ok (batch_size h)
    ]

unfoldable pub split_loop : ℕ → List ℕ → Result SplitError (List (List ℕ))
split_loop fuel [] = ok []
split_loop zero (b ∷ bs) = err out_of_fuel
split_loop (suc fuel) (b ∷ bs) = elim (next_size (b ∷ bs)) [
  | err e ↦ err e
  | ok size ↦
      map_ok (λ batches. take size (b ∷ bs) ∷ batches) (split_loop fuel (drop size (b ∷ bs)))
]

unfoldable pub split_batches : List ℕ → Result SplitError (List (List ℕ))
split_batches data' = split_loop (length data') data'

-- The value of `pos` when the loop ends: any test that fails is a `break`.
unfoldable pub trim_loop : ℕ → List ℕ → ℕ
trim_loop zero rest = 0
trim_loop (suc fuel) rest = elim (next_size rest) [
  | err e ↦ 0
  | ok size ↦ size + trim_loop fuel (drop size rest)
]

unfoldable pub trim_to_batch_boundary : List ℕ → List ℕ
trim_to_batch_boundary buf = take (trim_loop (length buf) buf) buf

-- A batch whose header announces its own length.
abbrev pub IsFramed : List ℕ → Type 0
IsFramed b = (h : BatchHeader) × (parse_batch_header b ≡ ok h) × (batch_size h ≡ length b)
