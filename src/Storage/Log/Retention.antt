-- ===== src/Storage/Log/Retention.antt =====
-- Deleting old segments: what goes and what stays.
use kafka_wire.Prelude.{
  ℕ, suc, ◌≡◌, refl, ap, ◌∙◌, inl, inr, List, [], ◌∷◌, ◌++◌, All, length, arith, Bool-cases, none,
  some,
}
use kafka_wire.Prelude.Int.{ℤ, pos, ◌≤ℤ◌, ◌<ℤ◌, ltb_ℤ}
use kafka_wire.Storage.Segment.{Segment}
use kafka_wire.Storage.Log.{
  Log, active_segment, delete_loop, delete_segments_before, earliest_offset, high_watermark,
}

-- Each segment starts where the one before it ends.
unfoldable pub IsChain : List Segment → Type 0
IsChain [] = Unit
IsChain (s ∷ []) = Unit
IsChain (s ∷ (t ∷ rest)) = (s.next_offset ≡ t.base_offset) × IsChain (t ∷ rest)

-- What is left cannot be cut further.
unfoldable pub IsCut : ℤ → List Segment → Type 0
IsCut cutoff (s ∷ (t ∷ rest)) = cutoff <ℤ t.base_offset
IsCut cutoff (s ∷ []) = Unit
IsCut cutoff [] = Unit

abbrev pub Ends : ℤ → Segment → Type 0
Ends cutoff s = s.next_offset ≤ℤ cutoff

abbrev pub IsDeletion : List Segment → ℤ → List Segment × ℕ → Type 0
IsDeletion segments cutoff (kept, deleted) =
    (gone : List Segment) × (segments ≡ gone ++ kept)
    × (length gone ≡ deleted)
    × All (Ends cutoff) gone
    × (active_segment kept ≡ active_segment segments)
    × IsCut cutoff kept

delete_loop-IsDeletion :
    (segments : List Segment) (cutoff : ℤ)
    → IsChain segments
    → IsDeletion segments cutoff (delete_loop segments cutoff)
unfolding delete_loop IsChain IsCut active_segment
delete_loop-IsDeletion [] cutoff c = ([], refl, refl, tt, refl, tt)
delete_loop-IsDeletion (s ∷ []) cutoff c = ([], refl, refl, tt, refl, tt)
delete_loop-IsDeletion (s ∷ (t ∷ rest)) cutoff c = elim (Bool-cases (ltb_ℤ cutoff t.base_offset)) [
  | inl above ↦ rw above ([], refl, refl, tt, refl, ground (arith, above))
  | inr below ↦
      let (gone, whole, count, ends, active, cut) = delete_loop-IsDeletion (t ∷ rest) cutoff c.1 in
      rw below (
        s ∷ gone,
        ap (λ l. s ∷ l) whole,
        ap suc count,
        (ground (arith, below, c.0), ends),
        active,
        cut,
      )
]

start_of_kept :
    (kept : List Segment) (a : Segment) (old : ℤ)
    → active_segment kept ≡ some a
    → elim kept [ [] ↦ old | s ∷ rest ↦ s.base_offset ]
      ≡ elim kept [ [] ↦ pos 0 | s ∷ rest ↦ s.base_offset ]
unfolding active_segment
start_of_kept [] a old e = absurd cc
start_of_kept (s ∷ rest) a old e = refl

-- Deleting up to a cutoff from a log whose segments follow on one another, and that has an active one:
-- a front part of the list goes, each segment in it ends at the cutoff or below, and the answer is how
-- many went. The active segment stays, the segment behind the first one kept starts above the cutoff,
-- the high watermark is the old one, and the recorded log start is the first offset that is left. So
-- a segment that starts below the cutoff and reaches past it stays, unlike what the comment on
-- `DeleteSegmentsBefore` says.
pub delete_segments_before_lem :
    (l : Log) (cutoff : ℤ) (a : Segment)
    → IsChain l.segments
    → active_segment l.segments ≡ some a
    → IsDeletion l.segments cutoff
        ((delete_segments_before l cutoff).0.segments, (delete_segments_before l cutoff).1)
      × (high_watermark (delete_segments_before l cutoff).0 ≡ high_watermark l)
      × ((delete_segments_before l cutoff).0.log_start
          ≡ earliest_offset (delete_segments_before l cutoff).0)
unfolding delete_segments_before high_watermark earliest_offset
delete_segments_before_lem l cutoff a c e =
    let d = delete_loop-IsDeletion l.segments cutoff c in
    let (gone, whole, count, ends, active, cut) = d in
    (
      d,
      ap (λ o. elim o [ none ↦ pos 0 | some s ↦ s.next_offset ]) active,
      start_of_kept (delete_loop l.segments cutoff).0 a l.log_start (active ∙ e),
    )
