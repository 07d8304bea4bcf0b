-- ===== src/Storage/TimeIndex/Tests.antt =====
-- A time index with one entry, and one that gets its second.
use kafka_wire.Prelude.{ℕ, zero, suc, ◌<◌, ◌≡◌, refl, [], ◌∷◌, none, arith}
use kafka_wire.Prelude.Result.{Result, ok, err}
use kafka_wire.Prelude.Int.{pos, ◌≤ℤ◌, ◌<ℤ◌}
use kafka_wire.Storage.File.{open_file}
use kafka_wire.Storage.TimeIndex.{TimeIndex, TimeEntry, TimeIndexError, maybe_append, lookup_offset}
use kafka_wire.Storage.TimeIndex.Lookup.{
  time_at, IsMonotone, IsTimeAnswer, lookup_offset_lem, lookup_misses_unsampled,
}

abbrev entry : TimeEntry
entry = record { timestamp = pos 50; rel_offset = 3 }

abbrev one : TimeIndex
one = record {
  file = open_file [];
  entries = entry ∷ [];
  last_indexed_pos = 100;
  last_ts = pos 50;
  interval = 10;
}

one-rising : (j k : ℕ) → j < k → k < 1 → time_at (entry ∷ []) j <ℤ time_at (entry ∷ []) k
one-rising j k h l = absurd (omega arith)

one-newest : (k : ℕ) → k < 1 → time_at (entry ∷ []) k ≤ℤ pos 50
one-newest zero l = omega arith
one-newest (suc k) l = absurd (omega arith)

one-IsMonotone : IsMonotone one
one-IsMonotone = record { rising = one-rising; newest = one-newest }

lookup_offset_lem_example : IsTimeAnswer one.entries (pos 20) (lookup_offset one (pos 20))
lookup_offset_lem_example = lookup_offset_lem one (pos 20) one-IsMonotone

abbrev index_or : TimeIndex → Result TimeIndexError TimeIndex → TimeIndex
index_or i (ok j) = j
index_or i (err e) = i

abbrev grown : TimeIndex
grown = index_or one (maybe_append one (pos 70) (pos 9) 150)

grown_run : maybe_append one (pos 70) (pos 9) 150 ≡ ok grown
unfolding maybe_append
grown_run = refl

lookup_misses_unsampled_example :
    (maybe_append one (pos 70) (pos 4) 105 ≡ ok one) × (lookup_offset one (pos 70) ≡ none)
lookup_misses_unsampled_example =
    lookup_misses_unsampled one (pos 70) (pos 4) 105 one-IsMonotone (omega arith) (omega arith)
      (omega arith)
