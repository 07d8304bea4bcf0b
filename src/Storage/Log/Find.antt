-- ===== src/Storage/Log/Find.antt =====
-- The binary search for the segment of an offset.
use kafka_wire.Prelude.{
  ℕ, zero, suc, ◌-◌, ◌≡◌, refl, ap, ◌∙◌, subst, ◌⊎◌, inl, inr, true, false, List, [], ◌∷◌, Option,
  none, some, length, get_elem?, arith, Option-cases, ◌==◌,
}
use kafka_wire.Prelude.Int.{ℤ, pos, ◌≤ℤ◌, ◌<ℤ◌, ltb_ℤ, leb_ℤ}
use kafka_wire.Prelude.Search.{search, search-IsBorder}
use kafka_wire.Storage.Segment.{Segment}
use kafka_wire.Storage.Log.{
  Log, active_segment, high_watermark, starts_after, find_in, find_segment, earliest_offset,
}
use kafka_wire.Storage.Log.Retention.{IsChain}

-- The segment at `k` of a chain ends where the next one starts, or is the active one.
chain-next :
    (segs : List Segment) (k : ℕ) (s : Segment) (offset : ℤ)
    → IsChain segs
    → get_elem? segs k ≡ some s
    → ((suc k ≡ length segs) ⊎ (starts_after segs offset (suc k) ≡ true))
    → (active_segment segs ≡ some s) ⊎ (offset <ℤ s.next_offset)
unfolding IsChain active_segment starts_after
chain-next [] k s offset c e b = absurd cc
chain-next (x ∷ []) zero s offset c e b = inl e
chain-next (x ∷ []) (suc k) s offset c e b = absurd cc
chain-next (x ∷ (y ∷ rest)) zero s offset c e (inl b) = absurd (omega arith)
chain-next (x ∷ (y ∷ rest)) zero s offset c e (inr b) = inr (ground (arith, c.0, e, b))
chain-next (x ∷ (y ∷ rest)) (suc k) s offset c e (inl b) =
    chain-next (y ∷ rest) k s offset c.1 e (inl (omega arith))
chain-next (x ∷ (y ∷ rest)) (suc k) s offset c e (inr b) =
    chain-next (y ∷ rest) k s offset c.1 e (inr b)

starts_after-false :
    (segs : List Segment) (offset : ℤ) (k : ℕ)
    → starts_after segs offset k ≡ false
    → (s : Segment) × (get_elem? segs k ≡ some s) × (s.base_offset ≤ℤ offset)
unfolding starts_after
starts_after-false segs offset k h = elim (Option-cases (get_elem? segs k)) [
  | inl e ↦ absurd (ground (arith, e, h))
  | inr (s, e) ↦ (s, e, ground (arith, e, h))
]

starts_after-first :
    (x : Segment) (rest : List Segment) (offset : ℤ)
    → x.base_offset ≤ℤ offset
    → starts_after (x ∷ rest) offset 0 ≡ false
unfolding starts_after
starts_after-first x rest offset h = ground arith

idx_cases : (n : ℕ) → (n ≡ 0) ⊎ ((k : ℕ) × (n ≡ suc k))
idx_cases zero = inl refl
idx_cases (suc k) = inr (k, refl)

find_in-at :
    (x : Segment) (rest : List Segment) (hwm offset : ℤ) (k : ℕ) (s : Segment)
    → ltb_ℤ offset x.base_offset ≡ false
    → leb_ℤ hwm offset ≡ false
    → search (length (x ∷ rest)) (starts_after (x ∷ rest) offset) ≡ suc k
    → get_elem? (x ∷ rest) k ≡ some s
    → find_in (x ∷ rest) hwm offset ≡ some s
unfolding find_in
find_in-at x rest hwm offset k s low high at found =
    let here : suc k - 1 ≡ k = omega arith in
    let later : (suc k == 0) ≡ false = ground arith in
    rw (find_in, low, high, at, later, here) found

abbrev pub IsFound : List Segment → ℤ → ℤ → Type 0
IsFound segs hwm offset =
    (k : ℕ) × (s : Segment) × (get_elem? segs k ≡ some s)
    × (find_in segs hwm offset ≡ some s)
    × (s.base_offset ≤ℤ offset)
    × ((active_segment segs ≡ some s) ⊎ (offset <ℤ s.next_offset))

find_in-IsFound :
    (x : Segment) (rest : List Segment) (hwm offset : ℤ)
    → IsChain (x ∷ rest)
    → x.base_offset ≤ℤ offset
    → offset <ℤ hwm
    → IsFound (x ∷ rest) hwm offset
find_in-IsFound x rest hwm offset c lo hi =
    let idx = search (length (x ∷ rest)) (starts_after (x ∷ rest) offset) in
    let (inside, before, after) =
      search-IsBorder (length (x ∷ rest)) (starts_after (x ∷ rest) offset) in
    elim (idx_cases idx) [
      | inl zero_idx ↦ elim after [
        | inl full ↦ absurd (omega (arith, full, zero_idx))
        | inr above ↦ absurd (
            cc (
              ap (starts_after (x ∷ rest) offset) zero_idx,
              starts_after-first x rest offset lo,
              above,
            ))
      ]
      | inr (k, at) ↦ elim before [
        | inl zero_idx ↦ absurd (omega (arith, at, zero_idx))
        | inr below ↦
            let (s, found, base) =
              starts_after-false (x ∷ rest) offset k
                (ap (starts_after (x ∷ rest) offset) {x = k} (omega (arith, at)) ∙ below) in
            let after' =
              subst (λ n. (n ≡ length (x ∷ rest)) ⊎ (starts_after (x ∷ rest) offset n ≡ true)) at
                after in
            (
              k,
              s,
              found,
              find_in-at x rest hwm offset k s (ground arith) (ground arith) at found,
              base,
              chain-next (x ∷ rest) k s offset c found after',
            )
      ]
    ]

abbrev end_of : Option Segment → ℤ
end_of o = elim o [ none ↦ pos 0 | some s ↦ s.next_offset ]

abbrev start_of : List Segment → ℤ
start_of segs = elim segs [ [] ↦ pos 0 | s ∷ rest ↦ s.base_offset ]

find_in_lem :
    (segs : List Segment) (offset : ℤ)
    → IsChain segs
    → start_of segs ≤ℤ offset
    → offset <ℤ end_of (active_segment segs)
    → (s : Segment) × (find_in segs (end_of (active_segment segs)) offset ≡ some s)
      × (s.base_offset ≤ℤ offset)
      × (offset <ℤ s.next_offset)
find_in_lem [] offset c lo hi = absurd (unfold active_segment in (ground (arith, lo, hi)))
find_in_lem (x ∷ rest) offset c lo hi =
    let (k, s, found, e, base, next) =
      find_in-IsFound x rest (end_of (active_segment (x ∷ rest))) offset c lo hi in
    (
      s,
      e,
      base,
      elim next [ inl active ↦ subst (λ o. offset <ℤ end_of o) active hi | inr below ↦ below ],
    )

-- In a log whose segments follow on one another, the search for an offset that the log has, from the
-- first segment's base on and below the high watermark, gives the segment whose offsets include it.
pub find_segment_lem :
    (l : Log) (offset : ℤ)
    → IsChain l.segments
    → earliest_offset l ≤ℤ offset
    → offset <ℤ high_watermark l
    → (s : Segment) × (find_segment l offset ≡ some s)
      × (s.base_offset ≤ℤ offset)
      × (offset <ℤ s.next_offset)
unfolding find_segment high_watermark earliest_offset
find_segment_lem l offset c lo hi = find_in_lem l.segments offset c lo hi
