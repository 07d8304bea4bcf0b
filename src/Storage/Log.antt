-- ===== src/Storage/Log.antt =====
-- internal/storage/log.go: the storage of one partition, a list of segments whose last one is active.
-- An operation that changes the log returns the changed log beside its result. The log's directory
-- holds the files of its segments and no others; `now` gives the clock's reading at each look at it.
pub mod Writable
pub mod Writing
pub mod Rising
pub mod Usable
pub mod Append
pub mod Retention
pub mod Backwards
pub mod Find
pub mod Place
pub mod Fetch
pub mod Served
pub mod Outcome
mod Tests
mod FetchTests
use kafka_wire.Prelude.{
  ℕ, zero, suc, ◌+◌, ◌-◌, Bool, true, false, List, [], ◌∷◌, ◌++◌, Option, none, some, map, length,
  get_elem?, leb, ltb, ◌==◌, if◌then◌else◌,
}
use kafka_wire.Prelude.Result.{Result, ok, err, map_ok}
use kafka_wire.Prelude.Int.{ℤ, pos, ltb_ℤ, leb_ℤ, eqb_ℤ}
use kafka_wire.Prelude.Search.{search}
use kafka_wire.Storage.Record.{
  RecordError, parse_batch_header, batch_size, validate_batch_for_append, rewrite_base_offset,
  set_partition_leader_epoch,
}
use kafka_wire.Storage.Batches.{trim_to_batch_boundary}
use kafka_wire.Storage.Segment
use kafka_wire.Storage.Segment.{
  Segment, SegmentOpts, SegmentFiles, SegmentError, open_segment, should_roll, read_at,
  find_batch_at, lookup_offset_by_timestamp, seal,
}

pub record Config : Type 0 where
  pub segment_bytes : ℕ
  pub segment_ms : ℕ
  pub index_interval : ℕ

pub record Log : Type 0 where
  pub cfg : Config
  pub segments : List Segment
  pub log_start : ℤ

pub data LogError : Type 0 where
  disk_full empty_batches no_active_segment offset_out_of_range : LogError
  invalid_batch : RecordError → LogError
  append_failed : SegmentError → LogError
  find_failed : RecordError → LogError

unfoldable pub active_segment : List Segment → Option Segment
active_segment [] = none
active_segment (s ∷ []) = some s
active_segment (s ∷ (t ∷ rest)) = active_segment (t ∷ rest)

-- The segments are pointers: this is a change made to the active one.
unfoldable pub set_active : List Segment → Segment → List Segment
set_active [] a = []
set_active (s ∷ []) a = a ∷ []
set_active (s ∷ (t ∷ rest)) a = s ∷ set_active (t ∷ rest) a

unfoldable pub high_watermark : Log → ℤ
high_watermark l = elim (active_segment l.segments) [ none ↦ pos 0 | some s ↦ s.next_offset ]

unfoldable pub earliest_offset : Log → ℤ
earliest_offset l = elim l.segments [ [] ↦ pos 0 | s ∷ rest ↦ s.base_offset ]

abbrev pub segment_opts : Config → ℤ → SegmentOpts
segment_opts cfg base = record {
  base_offset = base;
  index_interval = cfg.index_interval;
  max_bytes = cfg.segment_bytes;
  max_age = cfg.segment_ms;
}

-- The files of a segment that is created.
abbrev pub new_files : ℕ → SegmentFiles
new_files now = record { log = []; index = []; time_index = []; mod_time = now }

-- The files of a segment. Their modification time is kept as it was when the segment was opened.
abbrev pub files_of : Segment → SegmentFiles
files_of s = record {
  log = s.log_file.content;
  index = s.idx.file.content;
  time_index = s.tix.file.content;
  mod_time = s.created_at;
}

-- What `OpenSegment` finds in the directory for a base offset: `O_CREATE` makes a file only where none
-- is. A segment that is opened a second time gets its own copy of the bytes in the model.
unfoldable pub files_at : List Segment → ℤ → ℕ → SegmentFiles
files_at [] base now = new_files now
files_at (s ∷ rest) base now =
    let later = files_at rest base now in if eqb_ℤ s.base_offset base then files_of s else later

unfoldable pub roll : (List ℕ → ℕ) → ℕ → Log → Log
roll crc32c now l = elim (active_segment l.segments) [
  | none ↦ l
  | some old ↦
      let segments = set_active l.segments (seal old) in
      let files = files_at segments old.next_offset now in
      if eqb_ℤ old.next_offset old.base_offset then l else record l {
        segments =
            segments ++ (open_segment crc32c (segment_opts l.cfg old.next_offset) files ∷ []);
      }
]

-- `if active.ShouldRoll() { rollLocked() }`
unfoldable pub roll_if_due : (List ℕ → ℕ) → ℕ → Log → Log
roll_if_due crc32c now l = elim (active_segment l.segments) [
  | none ↦ l
  | some a ↦ if should_roll a now then roll crc32c now l else l
]

unfoldable pub validate_all : (List ℕ → ℕ) → List (List ℕ) → Result LogError (Unit {0})
validate_all crc32c [] = ok tt
validate_all crc32c (b ∷ bs) = elim (validate_batch_for_append crc32c b) [
  | ok u ↦ validate_all crc32c bs
  | err e ↦ err (invalid_batch e)
]

-- One batch on its way to the active segment.
unfoldable pub append_batch : (List ℕ → ℕ) → Log → List ℕ → Log × Result LogError (Unit {0})
append_batch crc32c l b = elim (active_segment l.segments) [
  | none ↦ (l, err no_active_segment)
  | some a ↦
      let stamped = set_partition_leader_epoch (rewrite_base_offset b a.next_offset) (pos 0) in
      elim (Segment.append crc32c a stamped) [
        | ok done ↦ (record l { segments = set_active l.segments done.segment }, ok tt)
        | err e ↦ (l, err (append_failed e))
      ]
]

-- The writing loop of `Append`: after each batch but the last the segment may roll. The count is the
-- number of looks at the clock so far.
unfoldable pub append_loop :
    (List ℕ → ℕ) → (ℕ → ℕ) → ℕ → Log → List (List ℕ) → Log × Result LogError (Unit {0})
append_loop crc32c now i l [] = (l, ok tt)
append_loop crc32c now i l (b ∷ []) = append_batch crc32c l b
append_loop crc32c now i l (b ∷ (c ∷ bs)) =
    let (l', result) = append_batch crc32c l b in
    elim result [
      | ok u ↦ append_loop crc32c now (suc i) (roll_if_due crc32c (now i) l') (c ∷ bs)
      | err e ↦ (l', err e)
    ]

-- Nothing is written before every batch is validated. `paused` is what the disk guard says; the sync
-- in fsync mode "always" changes nothing in the model.
unfoldable pub append :
    (List ℕ → ℕ) → Bool → (ℕ → ℕ) → Log → List (List ℕ) → Log × Result LogError ℤ
append crc32c paused now l batches = if paused then (l, err disk_full) else elim batches [
  | [] ↦ (l, err empty_batches)
  | b ∷ bs ↦ elim (active_segment l.segments) [
    | none ↦ (l, err no_active_segment)
    | some a ↦
        let rolled = roll_if_due crc32c (now 0) l in
        elim (validate_all crc32c (b ∷ bs)) [
          | err e ↦ (rolled, err e)
          | ok u ↦
              let (l', result) = append_loop crc32c now 1 rolled (b ∷ bs) in
              (l', map_ok (λ v. high_watermark rolled) result)
        ]
  ]
]

-- Whether the segment at `k` starts above the offset: the test of the binary search.
unfoldable pub starts_after : List Segment → ℤ → ℕ → Bool
starts_after segments offset k = elim (get_elem? segments k) [
  | none ↦ true
  | some s ↦ ltb_ℤ offset s.base_offset
]

-- The segments, the high watermark, and the offset that is looked for.
unfoldable pub find_in : List Segment → ℤ → ℤ → Option Segment
find_in [] hwm offset = none
find_in (s ∷ rest) hwm offset =
    if ltb_ℤ offset s.base_offset
    then none
    else if leb_ℤ hwm offset
    then none
    else let idx = search (length (s ∷ rest)) (starts_after (s ∷ rest) offset) in
      if idx == 0 then some s else get_elem? (s ∷ rest) (idx - 1)

unfoldable pub find_segment : Log → ℤ → Option Segment
find_segment l offset = find_in l.segments (high_watermark l) offset

-- `hdr, _ := ParseBatchHeader(buf)`: its base offset, that of the zero header where it fails.
unfoldable pub base_of : List ℕ → ℤ
base_of buf = elim (parse_batch_header buf) [ ok h ↦ h.base_offset | err e ↦ pos 0 ]

-- Less than one batch was asked for: the first batch in full.
unfoldable pub first_whole : Segment → ℕ → ℤ → List ℕ → Result LogError (List ℕ × ℤ)
first_whole seg start offset buf = elim (parse_batch_header buf) [
  | err e ↦ err (find_failed e)
  | ok h ↦
      let full = read_at seg start (batch_size h) in
      if ltb (length full) (batch_size h) then ok ([], offset) else ok (full, base_of full)
]

-- The bytes that were read, and the same trimmed to whole batches.
unfoldable pub serve : Segment → ℕ → ℤ → List ℕ → List ℕ → Result LogError (List ℕ × ℤ)
serve seg start offset buf [] = first_whole seg start offset buf
serve seg start offset buf (y ∷ ys) = ok (y ∷ ys, base_of (y ∷ ys))

-- What is read from one segment, from a position on.
unfoldable pub fetch_from : Segment → ℕ → ℤ → ℕ → Result LogError (List ℕ × ℤ)
fetch_from seg start offset max_bytes =
    let buf = read_at seg start max_bytes in
    if length buf == 0
    then ok ([], offset)
    else serve seg start offset buf (trim_to_batch_boundary buf)

unfoldable pub fetch_at : Log → ℤ → ℕ → Result LogError (List ℕ × ℤ)
fetch_at l offset max_bytes = elim l.segments [
  | [] ↦ ok ([], offset)
  | s ∷ rest ↦ elim (find_segment l offset) [
    | none ↦ if leb_ℤ (high_watermark l) offset then ok ([], offset) else err offset_out_of_range
    | some seg ↦ elim (find_batch_at seg offset) [
      | err e ↦ err (find_failed e)
      | ok start ↦ fetch_from seg start offset max_bytes
    ]
  ]
]

-- The first segment whose time index has an answer.
unfoldable pub lookup_loop : List Segment → ℤ → Option ℤ
lookup_loop [] ts = none
lookup_loop (s ∷ rest) ts = elim (lookup_offset_by_timestamp s ts) [
  | some offset ↦ some offset
  | none ↦ lookup_loop rest ts
]

unfoldable pub sealed_segments : List Segment → List Segment
sealed_segments [] = []
sealed_segments (s ∷ []) = []
sealed_segments (s ∷ (t ∷ rest)) = s ∷ sealed_segments (t ∷ rest)

-- The segments that stay, and how many went.
unfoldable pub delete_loop : List Segment → ℤ → List Segment × ℕ
delete_loop [] cutoff = ([], 0)
delete_loop (s ∷ []) cutoff = (s ∷ [], 0)
delete_loop (s ∷ (t ∷ rest)) cutoff =
    let (kept, deleted) = delete_loop (t ∷ rest) cutoff in
    if ltb_ℤ cutoff t.base_offset then (s ∷ (t ∷ rest), 0) else (kept, suc deleted)

unfoldable pub delete_segments_before : Log → ℤ → Log × ℕ
delete_segments_before l cutoff =
    let (kept, deleted) = delete_loop l.segments cutoff in
    (
      record l {
        segments = kept;
        log_start = elim kept [ [] ↦ l.log_start | s ∷ rest ↦ s.base_offset ];
      },
      deleted,
    )

-- `recover` with the files of each base offset, in ascending order of those: all but the last are
-- sealed.
unfoldable pub open_all : (List ℕ → ℕ) → Config → List (ℤ × SegmentFiles) → List Segment
open_all crc32c cfg [] = []
open_all crc32c cfg ((base, files) ∷ []) = open_segment crc32c (segment_opts cfg base) files ∷ []
open_all crc32c cfg ((base, files) ∷ (next ∷ rest)) =
    record (open_segment crc32c (segment_opts cfg base) files) { sealed = true }
    ∷ open_all crc32c cfg (next ∷ rest)

-- A partition without segment files gets segment 0.
unfoldable pub open_log : (List ℕ → ℕ) → Config → ℕ → List (ℤ × SegmentFiles) → Log
open_log crc32c cfg now dir = elim (open_all crc32c cfg dir) [
  | [] ↦ record {
    cfg = cfg;
    segments = open_segment crc32c (segment_opts cfg (pos 0)) (new_files now) ∷ [];
    log_start = pos 0;
  }
  | s ∷ rest ↦ record { cfg = cfg; segments = s ∷ rest; log_start = s.base_offset }
]
