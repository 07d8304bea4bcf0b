-- ===== src/Storage/TimeIndex.antt =====
-- internal/storage/timeindex.go: the sparse timestamp index of a segment. Timestamps are int64.
pub mod Lookup
mod Tests
use kafka_wire.Prelude.{
  ℕ, zero, suc, ◌+◌, ◌-◌, ◌%◌, ◌/◌, ◌^◌, not, ◌&&◌, ◌||◌, List, [], ◌∷◌, ◌++◌, Option, none, some,
  length, get_or, last_or, take, drop, slice, ltb, ◌==◌, if◌then◌else◌,
}
use kafka_wire.Prelude.Result.{Result, ok, err, ◌>>◌, ◌>>=◌, fail_if}
use kafka_wire.Prelude.Int.{ℤ, pos, ◌+ℤ◌, ltb_ℤ, leb_ℤ, bits_32, bits_64, wrap_64, signed}
use kafka_wire.Prelude.Bytes.{be_uint, put_be}
use kafka_wire.Prelude.Search.{search}
use kafka_wire.Storage.File.{File, open_file, write, truncate, seek}

abbrev pub time_index_entry_size : ℕ
time_index_entry_size = 16

pub record TimeEntry : Type 0 where
  pub timestamp : ℤ
  pub rel_offset : ℕ

pub record TimeIndex : Type 0 where
  pub file : File
  pub entries : List TimeEntry
  pub last_indexed_pos : ℕ
  pub last_ts : ℤ
  pub interval : ℕ

pub data TimeIndexError : Type 0 where
  relative_offset_out_of_range : TimeIndexError

abbrev pub zero_entry : TimeEntry
zero_entry = record { timestamp = pos 0; rel_offset = 0 }

unfoldable pub read_entries : ℕ → List ℕ → List TimeEntry
read_entries zero buf = []
read_entries (suc count) buf =
    record {
      timestamp = signed (2 ^ 63) (be_uint (slice 0 8 buf));
      rel_offset = be_uint (slice 8 12 buf);
    }
    ∷ read_entries count (drop time_index_entry_size buf)

-- The position of the last entry is not in the file, so it starts at 0.
unfoldable pub load : File → ℕ → TimeIndex
unfolding read_entries truncate
load f interval =
    let size = length f.content in
    let aligned = size - size % time_index_entry_size in
    let entries = read_entries (aligned / time_index_entry_size) (take aligned f.content) in
    record {
      file = truncate f aligned;
      entries = entries;
      last_indexed_pos = 0;
      last_ts = (last_or zero_entry entries).timestamp;
      interval = interval;
    }

unfoldable pub open_time_index : List ℕ → ℕ → TimeIndex
unfolding load
open_time_index bytes interval = load (open_file bytes) interval

-- Eight bytes, four bytes, and four bytes of padding.
unfoldable pub entry_bytes : TimeEntry → List ℕ
entry_bytes e = put_be 8 (bits_64 e.timestamp) ++ (put_be 4 e.rel_offset ++ put_be 4 0)

-- A timestamp that does not pass the last sample is moved one past it.
unfoldable pub clamp : TimeIndex → ℤ → ℤ
clamp t ts =
    if leb_ℤ ts t.last_ts && not (length t.entries == 0) then wrap_64 (t.last_ts +ℤ pos 1) else ts

unfoldable pub maybe_append : TimeIndex → ℤ → ℤ → ℕ → Result TimeIndexError TimeIndex
unfolding write entry_bytes clamp
maybe_append t ts rel_offset position =
    if ltb position (t.last_indexed_pos + t.interval) && not (length t.entries == 0)
    then ok t
    else do
      fail_if (ltb_ℤ rel_offset (pos 0) || ltb_ℤ (pos 0xFFFFFFFF) rel_offset)
          relative_offset_out_of_range
      let e : TimeEntry = record { timestamp = clamp t ts; rel_offset = bits_32 rel_offset }
      ok (record t {
        file = write t.file (entry_bytes e);
        entries = t.entries ++ (e ∷ []);
        last_indexed_pos = position;
        last_ts = clamp t ts;
      })

-- `none` is Go's `(0, false)`.
unfoldable pub lookup_offset : TimeIndex → ℤ → Option ℕ
lookup_offset t ts =
    if length t.entries == 0
    then none
    else let idx =
        search (length t.entries) (λ k. leb_ℤ ts (get_or t.entries k zero_entry).timestamp) in
      if idx == length t.entries then none else some (get_or t.entries idx zero_entry).rel_offset

unfoldable pub reset : TimeIndex → TimeIndex
unfolding truncate seek
reset t = record t {
  file = seek (truncate t.file 0) 0;
  entries = [];
  last_indexed_pos = 0;
  last_ts = pos 0;
}

unfoldable pub max_timestamp : TimeIndex → ℤ
max_timestamp t = t.last_ts
