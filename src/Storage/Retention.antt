-- ===== src/Storage/Retention.antt =====
-- internal/storage/retention.go: the sweep of one log. `archived` is the callback that cold storage
-- sets, none when that is off. Ages are in milliseconds.
pub mod Archive
mod Tests
use kafka_wire.Prelude.{
  ℕ, zero, suc, ◌+◌, ◌-◌, Bool, true, false, ◌||◌, List, [], ◌∷◌, Option, none, some, length, take,
  if◌then◌else◌,
}
use kafka_wire.Prelude.Int.{ℤ, pos, negsuc, ltb_ℤ, leb_ℤ}
use kafka_wire.Storage.Segment.{Segment}
use kafka_wire.Storage.Log.{Log, sealed_segments, delete_segments_before}

pub record RetentionConfig : Type 0 where
  pub retention_ms : ℤ
  pub retention_bytes : ℤ
  pub archived : Option (Segment → Bool)

unfoldable pub archived_prefix : (Segment → Bool) → List Segment → ℕ
archived_prefix archived [] = 0
archived_prefix archived (s ∷ rest) =
    let more = archived_prefix archived rest in if archived s then suc more else 0

-- How many of the oldest sealed segments may go.
unfoldable pub deletable : Option (Segment → Bool) → List Segment → ℕ
deletable none segs = length segs
deletable (some archived) segs = archived_prefix archived segs

-- The walk that stops at the first segment inside the age window.
unfoldable pub age_cutoff : ℤ → ℕ → List Segment → ℤ → ℤ
age_cutoff retention_ms now [] cutoff = cutoff
age_cutoff retention_ms now (s ∷ rest) cutoff =
    let more = age_cutoff retention_ms now rest s.next_offset in
    if leb_ℤ retention_ms (pos 0) || leb_ℤ (pos (now - s.created_at)) retention_ms
    then cutoff
    else more

unfoldable pub total_bytes : List Segment → ℕ
total_bytes [] = 0
total_bytes (s ∷ rest) = s.log_size + total_bytes rest

-- The loop of the size rule: the list is the part that may go, `total` what is still held.
unfoldable pub size_cutoff : ℤ → List Segment → ℕ → ℤ → ℤ
size_cutoff retention_bytes [] total cutoff = cutoff
size_cutoff retention_bytes (s ∷ rest) total cutoff =
    let next = if ltb_ℤ cutoff s.next_offset then s.next_offset else cutoff in
    let more = size_cutoff retention_bytes rest (total - s.log_size) next in
    if ltb_ℤ retention_bytes (pos total) then more else cutoff

unfoldable pub sweep_cutoff : RetentionConfig → ℕ → Log → ℤ
sweep_cutoff cfg now l =
    let segs = sealed_segments l.segments in
    let prefix = take (deletable cfg.archived segs) segs in
    let by_age = age_cutoff cfg.retention_ms now prefix (negsuc 0) in
    let by_size = size_cutoff cfg.retention_bytes prefix (total_bytes l.segments) by_age in
    if ltb_ℤ (pos 0) cfg.retention_bytes then by_size else by_age

-- The body of `sweepOnce` for one log, with how many segments it deleted.
unfoldable pub sweep_log : RetentionConfig → ℕ → Log → Log × ℕ
sweep_log cfg now l = elim (sealed_segments l.segments) [
  | [] ↦ (l, 0)
  | s ∷ rest ↦
      let cutoff = sweep_cutoff cfg now l in
      if ltb_ℤ cutoff (pos 0) then (l, 0) else delete_segments_before l cutoff
]
