-- ===== src/Storage/Segment.antt =====
-- internal/storage/segment.go: one append-only log file with its two indexes. Offsets are int64,
-- positions in the file are counted from 0. `crc32c` is the checksum of record.go, a parameter.
pub mod Replay
pub mod Recovery
mod Tests
use kafka_wire.Prelude.{
  ℕ, zero, suc, ◌+◌, ◌-◌, ◌≡◌, Bool, true, false, ◌&&◌, List, [], ◌∷◌, ◌++◌, Option, none, some,
  length, take, drop, slice, ltb, leb, ◌==◌, min, if◌then◌else◌,
}
use kafka_wire.Prelude.Result.{Result, ok, err, ◌>>=◌, ◌>>◌, fail_if}
use kafka_wire.Prelude.Int.{ℤ, pos, ◌+ℤ◌, ◌-ℤ◌, ltb_ℤ, leb_ℤ, wrap_64}
use kafka_wire.Storage.File.{File, open_file, write, truncate, seek}
use kafka_wire.Storage.Record.{
  RecordError, BatchHeader, v2_header_size, last_offset, batch_size, parse_batch_header,
  validate_crc, validate_batch_attributes,
}
use kafka_wire.Storage.Index
use kafka_wire.Storage.Index.{Index, open_index}
use kafka_wire.Storage.TimeIndex
use kafka_wire.Storage.TimeIndex.{TimeIndex, open_time_index}

pub record Segment : Type 0 where
  pub base_offset : ℤ
  pub log_file : File
  pub log_size : ℕ
  pub created_at : ℕ
  pub idx : Index
  pub tix : TimeIndex
  pub next_offset : ℤ
  pub max_bytes : ℕ
  pub max_age : ℕ
  pub sealed : Bool

pub record SegmentOpts : Type 0 where
  pub base_offset : ℤ
  pub index_interval : ℕ
  pub max_bytes : ℕ
  pub max_age : ℕ

-- What the directory holds when a segment is opened; a missing file is created empty.
pub record SegmentFiles : Type 0 where
  pub log : List ℕ
  pub index : List ℕ
  pub time_index : List ℕ
  pub mod_time : ℕ

pub data SegmentError : Type 0 where
  segment_sealed : SegmentError
  invalid : RecordError → SegmentError

-- `_ = s.idx.MaybeAppend(...)`: an error leaves the index as it was.
abbrev pub kept {ℓ} : {E : Type 0} {A : Type ℓ} → Result E A → A → A
kept (ok a) old = a
kept (err e) old = old

abbrev pub checked : Result RecordError (Unit {0}) → Result SegmentError (Unit {0})
checked (ok u) = ok u
checked (err e) = err (invalid e)

-- The statements that `recover` and `Append` share: the tail offset and both indexes.
unfoldable pub note_batch : Segment → BatchHeader → ℕ → Segment
note_batch s h position =
    let rel_offset = wrap_64 (h.base_offset -ℤ s.base_offset) in
    record s {
      next_offset = wrap_64 (last_offset h +ℤ pos 1);
      idx = kept (Index.maybe_append s.idx rel_offset position) s.idx;
      tix = kept (TimeIndex.maybe_append s.tix h.max_timestamp rel_offset position) s.tix;
    }

-- The batch at the front of the log behind `pos`, or none where the scan breaks off.
unfoldable pub good_batch : (List ℕ → ℕ) → List ℕ → Option BatchHeader
good_batch crc32c rest =
    if ltb (length rest) v2_header_size
    then none
    else elim (parse_batch_header (take v2_header_size rest)) [
      | err e ↦ none
      | ok h ↦
          if ltb (length rest) (batch_size h)
          then none
          else elim (validate_crc crc32c (take (batch_size h) rest)) [
            | ok u ↦ some h
            | err e ↦ none
          ]
    ]

-- The scan of `recover`: the list is the log behind `position`.
unfoldable pub recover_loop : ℕ → (List ℕ → ℕ) → Segment → ℕ → List ℕ → Segment × ℕ
recover_loop zero crc32c s position rest = (s, position)
recover_loop (suc fuel) crc32c s position rest = elim (good_batch crc32c rest) [
  | none ↦ (s, position)
  | some h ↦
      recover_loop fuel crc32c (note_batch s h position) (position + batch_size h)
        (drop (batch_size h) rest)
]

-- Cut the log where the scan ended, and seek to its end.
unfoldable pub finish_recovery : Segment × ℕ → Segment
unfolding truncate seek
finish_recovery (s, position) =
    let cut : Segment =
      if ltb position s.log_size
      then record s { log_file = truncate s.log_file position; log_size = position }
      else s in
    record cut { log_file = seek cut.log_file cut.log_size }

unfoldable pub recover : (List ℕ → ℕ) → Segment → Segment
recover crc32c s =
    if s.log_size == 0
    then record s { next_offset = s.base_offset }
    else let s' = record s { idx = Index.reset s.idx; tix = TimeIndex.reset s.tix } in
      finish_recovery (recover_loop (length s.log_file.content) crc32c s' 0 s.log_file.content)

unfoldable pub open_segment : (List ℕ → ℕ) → SegmentOpts → SegmentFiles → Segment
open_segment crc32c opts files = recover crc32c (record {
  base_offset = opts.base_offset;
  log_file = open_file files.log;
  log_size = length files.log;
  created_at = files.mod_time;
  idx = open_index files.index opts.index_interval;
  tix = open_time_index files.time_index opts.index_interval;
  next_offset = opts.base_offset;
  max_bytes = opts.max_bytes;
  max_age = opts.max_age;
  sealed = false;
})

-- `time.Since(s.createdAt)` is the clock's reading less the creation time.
unfoldable pub should_roll : Segment → ℕ → Bool
should_roll s now =
    if s.log_size == 0
    then false
    else if ltb 0 s.max_bytes && leb s.max_bytes s.log_size
    then true
    else ltb 0 s.max_age && leb (s.created_at + s.max_age) now

pub record Appended : Type 0 where
  pub segment : Segment
  pub first : ℤ
  pub last : ℤ
  pub position : ℕ

unfoldable pub append : (List ℕ → ℕ) → Segment → List ℕ → Result SegmentError Appended
append crc32c s batch = do
  fail_if s.sealed segment_sealed
  h ← elim (parse_batch_header batch) [ ok h ↦ ok h | err e ↦ err (invalid e) ]
  checked (validate_crc crc32c batch)
  checked (validate_batch_attributes h.attributes)
  let written : Segment = record s {
    log_file = write s.log_file batch;
    log_size = s.log_size + length batch;
  }
  ok (record {
    segment = note_batch written h s.log_size;
    first = h.base_offset;
    last = last_offset h;
    position = s.log_size;
  })

-- `ReadAt`: at most `max_bytes` bytes, and none behind the end of the log.
unfoldable pub read_at : Segment → ℕ → ℕ → List ℕ
read_at s position max_bytes =
    if leb s.log_size position
    then []
    else take (if ltb s.log_size (position + max_bytes) then s.log_size - position else max_bytes)
        (drop position s.log_file.content)

-- `ReadAt(header, pos)`: what stands behind the position goes into the buffer; behind a short read the
-- buffer keeps its old bytes.
abbrev pub read_into : List ℕ → List ℕ → List ℕ
read_into header rest = take v2_header_size rest ++ drop (length (take v2_header_size rest)) header

-- `make([]byte, n)`
unfoldable pub zeros : ℕ → List ℕ
zeros zero = []
zeros (suc n) = 0 ∷ zeros n

-- The forward scan of `FindBatchAt` with its buffer.
unfoldable pub find_loop : ℕ → Segment → ℤ → List ℕ → ℕ → Result RecordError ℕ
find_loop zero s target header position = ok position
find_loop (suc fuel) s target header position =
    let header' = read_into header (drop position s.log_file.content) in
    if leb s.log_size position then ok s.log_size else elim (parse_batch_header header') [
      | err e ↦ err e
      | ok h ↦
          let later = find_loop fuel s target header' (position + batch_size h) in
          if leb_ℤ h.base_offset target && leb_ℤ target (last_offset h)
          then ok position
          else if ltb_ℤ target h.base_offset
          then ok position
          else later
    ]

unfoldable pub find_batch_at : Segment → ℤ → Result RecordError ℕ
find_batch_at s target =
    let rel_offset = wrap_64 (target -ℤ s.base_offset) in
    let start : ℕ = elim (Index.lookup_position s.idx rel_offset) [ some p ↦ p | none ↦ 0 ] in
    find_loop (suc s.log_size) s target (zeros v2_header_size) start

unfoldable pub lookup_offset_by_timestamp : Segment → ℤ → Option ℤ
lookup_offset_by_timestamp s ts = elim (TimeIndex.lookup_offset s.tix ts) [
  | none ↦ none
  | some rel ↦ some (wrap_64 (s.base_offset +ℤ pos rel))
]

-- Syncing the files changes nothing in the model.
unfoldable pub seal : Segment → Segment
seal s = record s { sealed = true }
