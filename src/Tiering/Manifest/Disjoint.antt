-- ===== src/Tiering/Manifest/Disjoint.antt =====
-- Recording an upload keeps the archived segments of a partition disjoint, and makes the new one the
-- one that serves its offsets.
use kafka_wire.Prelude.{
  ◌≡◌, ◌≢◌, ◌∙◌, ◌⊎◌, inl, inr, Bool, true, false, ◌&&◌, List, [], ◌∷◌, ◌++◌, some, All, arith,
  Bool-cases,
}
use kafka_wire.Prelude.Int.{ℤ, ◌≤ℤ◌, ◌<ℤ◌}
use kafka_wire.Prelude.Map.{same, same_refl}
use kafka_wire.Prelude.Select.{filter, All-filter, filter-All, first-filter, first-snoc}
use kafka_wire.Tiering.Manifest.{
  SegmentEntry, Manifest, stays, add_completed, is_at, lookup, all_for_topic, covers, find_archived,
}

-- Two entries that no offset of a partition can be in both of.
abbrev pub IsApart : SegmentEntry → SegmentEntry → Type 0
IsApart x y =
    x.topic ≡ y.topic
    → x.partition ≡ y.partition
    → ((x.next_offset ≤ℤ y.base_offset) ⊎ (y.next_offset ≤ℤ x.base_offset))
      × (x.base_offset ≢ y.base_offset)

unfoldable pub IsDisjoint : List SegmentEntry → Type 0
IsDisjoint [] = Unit
IsDisjoint (x ∷ xs) = All (IsApart x) xs × IsDisjoint xs

stays-IsApart : (e old : SegmentEntry) → stays e old ≡ true → IsApart old e
unfolding stays
stays-IsApart e old h t p = ground (arith, same_refl e.topic, t, p)

filter-IsDisjoint :
    (q : SegmentEntry → Bool) (xs : List SegmentEntry) → IsDisjoint xs → IsDisjoint (filter q xs)
unfolding filter IsDisjoint
filter-IsDisjoint q [] d = tt
filter-IsDisjoint q (x ∷ xs) d = elim (Bool-cases (q x)) [
  | inl held ↦ rw held (All-filter q (IsApart x) xs d.0, filter-IsDisjoint q xs d.1)
  | inr out ↦ rw out (filter-IsDisjoint q xs d.1)
]

All-snoc {ℓ} :
    {A : Type ℓ} (P : A → Type 0) (xs : List A) (e : A) → All P xs → P e → All P (xs ++ (e ∷ []))
All-snoc P [] e h p = (p, tt)
All-snoc P (x ∷ xs) e h p = (h.0, All-snoc P xs e h.1 p)

IsDisjoint-snoc :
    (xs : List SegmentEntry) (e : SegmentEntry)
    → IsDisjoint xs
    → All (λ old. IsApart old e) xs
    → IsDisjoint (xs ++ (e ∷ []))
unfolding IsDisjoint
IsDisjoint-snoc [] e d h = (tt, tt)
IsDisjoint-snoc (x ∷ xs) e d h = (All-snoc (IsApart x) xs e d.0 h.0, IsDisjoint-snoc xs e d.1 h.1)

-- Recording a completed upload in a manifest whose entries are disjoint keeps them so: no two
-- entries of a partition overlap or start at the same offset.
pub add_completed-IsDisjoint :
    (m : Manifest) (e : SegmentEntry)
    → IsDisjoint m.completed
    → IsDisjoint (add_completed m e).completed
unfolding add_completed
add_completed-IsDisjoint m e d =
    IsDisjoint-snoc (filter (stays e) m.completed) e (filter-IsDisjoint (stays e) m.completed d)
      (filter-All (stays e) (λ old. IsApart old e) m.completed (stays-IsApart e))

kept_misses :
    (e old : SegmentEntry) (offset : ℤ)
    → e.base_offset ≤ℤ offset
    → offset <ℤ e.next_offset
    → stays e old ≡ true
    → (same old.topic e.topic && covers e.partition offset old) ≡ false
unfolding covers stays
kept_misses e old offset lo hi s = ground arith

kept_elsewhere :
    (e old : SegmentEntry)
    → stays e old ≡ true
    → is_at e.topic e.partition e.base_offset old ≡ false
unfolding is_at stays
kept_elsewhere e old s = ground arith

covers-new :
    (e : SegmentEntry) (offset : ℤ)
    → e.base_offset ≤ℤ offset
    → offset <ℤ e.next_offset
    → (same e.topic e.topic && covers e.partition offset e) ≡ true
unfolding covers
covers-new e offset lo hi = ground (arith, same_refl e.topic)

is_at-new : (e : SegmentEntry) → is_at e.topic e.partition e.base_offset e ≡ true
unfolding is_at
is_at-new e = ground (arith, same_refl e.topic)

-- After an upload is recorded, the archive serves each offset from the segment's base to below its
-- end from that segment, and finds the segment by its base offset, whatever stale entries there
-- were before.
pub find_archived-add_completed :
    (m : Manifest) (e : SegmentEntry) (offset : ℤ)
    → e.base_offset ≤ℤ offset
    → offset <ℤ e.next_offset
    → (find_archived (add_completed m e) e.topic e.partition offset ≡ some e)
      × (lookup (add_completed m e) e.topic e.partition e.base_offset ≡ some e)
unfolding find_archived all_for_topic add_completed lookup
find_archived-add_completed m e offset lo hi = (
  first-filter (λ x. same x.topic e.topic) (covers e.partition offset) _
      ∙ first-snoc (λ x. same x.topic e.topic && covers e.partition offset x)
          (filter (stays e) m.completed) e
          (filter-All (stays e) _ m.completed (λ old s. kept_misses e old offset lo hi s))
          (covers-new e offset lo hi),
  first-snoc (is_at e.topic e.partition e.base_offset) (filter (stays e) m.completed) e
      (filter-All (stays e) _ m.completed (λ old s. kept_elsewhere e old s)) (is_at-new e),
)
