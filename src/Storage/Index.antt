-- ===== src/Storage/Index.antt =====
-- internal/storage/index.go: the sparse offset index of a segment, in memory and in its file.
pub mod Lookup
pub mod Stored
mod Tests
use kafka_wire.Prelude.{
  ℕ, zero, suc, ◌+◌, ◌-◌, ◌%◌, ◌/◌, ◌^◌, not, ◌&&◌, ◌||◌, List, [], ◌∷◌, ◌++◌, Option, none, some,
  length, get_or, last_or, take, drop, slice, ltb, ◌==◌, if◌then◌else◌,
}
use kafka_wire.Prelude.Result.{Result, ok, err, ◌>>=◌, ◌>>◌, fail_if}
use kafka_wire.Prelude.Int.{ℤ, pos, negsuc, pos_part, ltb_ℤ, bits_32}
use kafka_wire.Prelude.Bytes.{be_uint, put_be}
use kafka_wire.Prelude.Search.{search}
use kafka_wire.Storage.File.{File, open_file, write, truncate, seek}

abbrev pub index_entry_size : ℕ
index_entry_size = 8

pub record IndexEntry : Type 0 where
  pub rel_offset : ℕ
  pub position : ℕ

pub record Index : Type 0 where
  pub file : File
  pub entries : List IndexEntry
  pub last_indexed_pos : ℕ
  pub interval : ℕ

pub data IndexError : Type 0 where
  relative_offset_out_of_range position_out_of_range : IndexError

abbrev pub first_entry : IndexEntry
first_entry = record { rel_offset = 0; position = 0 }

unfoldable pub read_entries : ℕ → List ℕ → List IndexEntry
read_entries zero buf = []
read_entries (suc count) buf =
    record { rel_offset = be_uint (slice 0 4 buf); position = be_uint (slice 4 8 buf) }
    ∷ read_entries count (drop index_entry_size buf)

-- A partial entry at the end of the file is cut off.
unfoldable pub load : File → ℕ → Index
unfolding read_entries truncate
load f interval =
    let size = length f.content in
    let aligned = size - size % index_entry_size in
    let entries = read_entries (aligned / index_entry_size) (take aligned f.content) in
    record {
      file = truncate f aligned;
      entries = entries;
      last_indexed_pos = (last_or first_entry entries).position;
      interval = interval;
    }

unfoldable pub open_index : List ℕ → ℕ → Index
unfolding load
open_index bytes interval = load (open_file bytes) interval

unfoldable pub entry_bytes : IndexEntry → List ℕ
entry_bytes e = put_be 4 e.rel_offset ++ put_be 4 e.position

-- `position-i.lastIndexedPos < i.interval` on int64 is tested without a subtraction.
unfoldable pub maybe_append : Index → ℤ → ℕ → Result IndexError Index
unfolding write entry_bytes
maybe_append i rel_offset position =
    if ltb position (i.last_indexed_pos + i.interval) && not (length i.entries == 0)
    then ok i
    else do
      fail_if (ltb_ℤ rel_offset (pos 0) || ltb_ℤ (pos 0xFFFFFFFF) rel_offset)
          relative_offset_out_of_range
      fail_if (ltb 0xFFFFFFFF position) position_out_of_range
      let e : IndexEntry = record { rel_offset = bits_32 rel_offset; position = position }
      ok (record i {
        file = write i.file (entry_bytes e);
        entries = i.entries ++ (e ∷ []);
        last_indexed_pos = position;
      })

-- `none` is Go's `(0, false)`.
unfoldable pub lookup_position : Index → ℤ → Option ℕ
lookup_position i rel_offset =
    if length i.entries == 0
    then none
    else let target = bits_32 rel_offset in
      let idx =
        search (length i.entries) (λ k. ltb target (get_or i.entries k first_entry).rel_offset) in
      if idx == 0 then some 0 else some (get_or i.entries (idx - 1) first_entry).position

unfoldable pub reset : Index → Index
unfolding truncate seek
reset i = record i { file = seek (truncate i.file 0) 0; entries = []; last_indexed_pos = 0 }
