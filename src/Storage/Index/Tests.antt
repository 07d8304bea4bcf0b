-- ===== src/Storage/Index/Tests.antt =====
-- An index with one entry, and one that gets its first.
use kafka_wire.Prelude.{ℕ, zero, suc, ◌≤◌, ◌<◌, ◌≡◌, refl, [], ◌∷◌, some, arith}
use kafka_wire.Prelude.Result.{Result, ok, err}
use kafka_wire.Prelude.Int.{pos}
use kafka_wire.Prelude.Bytes.{put_be}
use kafka_wire.Storage.Index.{
  Index, IndexEntry, IndexError, entry_bytes, maybe_append, lookup_position,
}
use kafka_wire.Storage.Index.Lookup.{rel_at, IsSorted, IsAnswer, lookup_position_lem}
use kafka_wire.Storage.Index.Stored.{IsStored, file_bytes}

abbrev entry : IndexEntry
entry = record { rel_offset = 3; position = 100 }

abbrev one : Index
one = record {
  file = record { content = file_bytes (entry ∷ []); cursor = 8 };
  entries = entry ∷ [];
  last_indexed_pos = 100;
  interval = 10;
}

one-rising : (j k : ℕ) → j ≤ k → k < 1 → rel_at (entry ∷ []) j ≤ rel_at (entry ∷ []) k
one-rising zero zero h l = omega arith
one-rising (suc j) zero h l = absurd (omega arith)
one-rising j (suc k) h l = absurd (omega arith)

one-IsSorted : IsSorted one.entries
one-IsSorted = record { rising = one-rising }

one-IsStored : IsStored one
unfolding entry_bytes put_be
one-IsStored = record {
  in_range = ((omega arith, omega arith), tt);
  written = refl;
  at_end = refl;
  last = refl;
}

lookup_position_lem_example :
    (p : ℕ) × (lookup_position one (pos 5) ≡ some p) × IsAnswer one.entries 5 p
lookup_position_lem_example = lookup_position_lem one 5 (omega arith) one-IsSorted (omega arith)

abbrev index_or : Index → Result IndexError Index → Index
index_or i (ok j) = j
index_or i (err e) = i

abbrev grown : Index
grown = index_or one (maybe_append one (pos 9) 150)

grown_run : maybe_append one (pos 9) 150 ≡ ok grown
unfolding maybe_append
grown_run = refl

below-nine : (k : ℕ) → k < 1 → rel_at (entry ∷ []) k ≤ 9
below-nine zero l = omega arith
below-nine (suc k) l = absurd (omega arith)
