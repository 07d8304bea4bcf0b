-- ===== src/Storage/Segment/Recovery.antt =====
-- Opening a segment after a crash.
use kafka_wire.Prelude.{
  ℕ, suc, ◌+◌, ◌≤◌, ◌≡◌, ◌≢◌, refl, ap, ◌∙◌, sym, inl, inr, List, [], ◌∷◌, ◌++◌, none, false, All,
  arith, length, concat, ltb, ◌==◌, Bool-cases, length-append, append-nil, take-append, subst,
}
use native.Mathlib.Nat.{zero-add}
use kafka_wire.Prelude.Result.{ok}
use kafka_wire.Storage.File.{File, open_file, truncate, seek}
use kafka_wire.Storage.Record.{decode_header}
use kafka_wire.Storage.Batches.{IsFramed}
use kafka_wire.Storage.Batches.Framing.{IsFramed-length}
use kafka_wire.Storage.Index
use kafka_wire.Storage.Index.{open_index}
use kafka_wire.Storage.TimeIndex
use kafka_wire.Storage.TimeIndex.{open_time_index}
use kafka_wire.Storage.Segment.{
  Segment, SegmentOpts, SegmentFiles, note_batch, good_batch, recover_loop, finish_recovery,
  recover, open_segment,
}
use kafka_wire.Storage.Segment.Replay.{
  append_all, note_all, with_log, append_all-shape, recover_loop-good,
}

-- A directory without the segment's files.
abbrev pub no_files : ℕ → SegmentFiles
no_files mod_time = record { log = []; index = []; time_index = []; mod_time = mod_time }

abbrev pub with_file : Segment → File → ℕ → Segment
with_file s f n = record s { log_file = f; log_size = n }

note_all-with_file :
    (s : Segment) (f : File) (n position : ℕ) (bs : List (List ℕ))
    → note_all (with_file s f n) position bs ≡ with_file (note_all s position bs) f n
unfolding note_all note_batch
note_all-with_file s f n position [] = refl
note_all-with_file s f n position (b ∷ bs) =
    note_all-with_file (note_batch s (decode_header b) position) f n (position + length b) bs

length-batches-le : (bs : List (List ℕ)) → All IsFramed bs → length bs ≤ length (concat bs)
length-batches-le [] framed = omega arith
length-batches-le (b ∷ bs) framed =
    omega (
      arith,
      IsFramed-length b framed.0,
      length-append b (concat bs),
      length-batches-le bs framed.1,
    )

same_end : (xs ys : List ℕ) → length (xs ++ ys) ≤ length xs → xs ++ ys ≡ xs
same_end xs [] h = append-nil xs
same_end xs (y ∷ ys) h = absurd (omega (arith, length-append xs (y ∷ ys)))

-- The end of a recovery whose scan stopped behind `good` bytes of the log.
finish_recovery-at :
    (s : Segment) (good torn : List ℕ)
    → finish_recovery (with_file s (open_file (good ++ torn)) (length (good ++ torn)), length good)
      ≡ with_log s good
unfolding finish_recovery truncate seek
finish_recovery-at s good torn = elim (Bool-cases (ltb (length good) (length (good ++ torn)))) [
  | inl cut ↦ rw cut (
      ap (λ bytes. with_file s (record { content = bytes; cursor = length good }) (length good))
        (take-append (length good) good torn refl))
  | inr full ↦ rw full (ap (with_log s) (same_end good torn (ground (arith, full))))
]

suc-ne-zero : (n : ℕ) → (suc n == 0) ≡ false
suc-ne-zero n = ground arith

module _ (crc32c : List ℕ → ℕ) (opts : SegmentOpts) (mod_time : ℕ) where
  fresh : Segment
  fresh = open_segment crc32c opts (no_files mod_time)

  fresh-with_log : fresh ≡ with_log fresh []
  unfolding fresh open_segment recover open_index open_time_index
  fresh-with_log = refl

  reopen :
      (log index time_index : List ℕ)
      → log ≢ []
      → open_segment crc32c opts
          (record { log = log; index = index; time_index = time_index; mod_time = mod_time })
        ≡ finish_recovery
            (recover_loop (length log) crc32c (with_file fresh (open_file log) (length log)) 0 log)
  unfolding fresh open_segment recover open_index open_time_index Index.reset TimeIndex.reset
  reopen [] index time_index h = absurd (h refl)
  reopen (x ∷ log) index time_index h = rw (suc-ne-zero (length log))

  -- Framed batches are appended to a new segment, every append succeeds, and the process dies.
  -- Opening the segment again, over the log with any bytes behind it that start no good batch, and
  -- over any index files, gives the very segment that the appends had left, if the log is not
  -- empty and its file time is the old one: the batches, their offsets and both indexes are there,
  -- and the torn bytes are gone.
  pub recover-append_all :
      (bs : List (List ℕ)) (torn index time_index : List ℕ) (s : Segment)
      → All IsFramed bs
      → append_all crc32c (open_segment crc32c opts (no_files mod_time)) bs ≡ ok s
      → good_batch crc32c torn ≡ none
      → concat bs ++ torn ≢ []
      → open_segment crc32c opts (record {
        log = concat bs ++ torn;
        index = index;
        time_index = time_index;
        mod_time = mod_time;
      })
        ≡ s
  recover-append_all bs torn index time_index s framed run stop some_byte =
      let (shape, good) =
        append_all-shape crc32c fresh s [] bs framed
          (unfold fresh in (subst (λ t. append_all crc32c t bs ≡ ok s) fresh-with_log run)) in
      reopen (concat bs ++ torn) index time_index some_byte
      ∙ ap finish_recovery (
          recover_loop-good crc32c (length (concat bs ++ torn))
            (with_file fresh (open_file (concat bs ++ torn)) (length (concat bs ++ torn))) 0 bs torn
            (omega (arith, length-batches-le bs framed, length-append (concat bs) torn)) good stop
          ∙ rw zero-add (
              ap (λ t. (t, length (concat bs)))
                (note_all-with_file fresh (open_file (concat bs ++ torn))
                  (length (concat bs ++ torn)) 0 bs)))
      ∙ finish_recovery-at (note_all fresh 0 bs) (concat bs) torn
      ∙ sym shape
