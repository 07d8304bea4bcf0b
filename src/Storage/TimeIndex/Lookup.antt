-- ===== src/Storage/TimeIndex/Lookup.antt =====
-- The time index answers with the first sample that reaches the asked time.
use kafka_wire.Prelude.{
  ℕ, ◌+◌, ◌-◌, ◌≤◌, ◌<◌, ◌≡◌, refl, ap, ◌⊎◌, inl, inr, List, [], ◌∷◌, ◌++◌, not, ◌&&◌, Option, none,
  some, Option-cases, subst, arith, length, get_or, Bool-cases, Bool, true, false, ltb, ◌==◌,
  if◌then◌else◌, get_or-append_front, get_or-snoc_end, length-snoc,
}
use kafka_wire.Prelude.Result.{ok}
use kafka_wire.Prelude.Int.{ℤ, pos, ◌≤ℤ◌, ◌<ℤ◌, leb_ℤ, ◌+ℤ◌, +ℤ_parts, wrap_64-id, bits_32, Is64}
use kafka_wire.Prelude.Search.{search, search-IsBorder}
use kafka_wire.Storage.File.{write}
use kafka_wire.Storage.TimeIndex.{
  TimeIndex, TimeEntry, zero_entry, clamp, maybe_append, lookup_offset, entry_bytes,
}

abbrev pub time_at : List TimeEntry → ℕ → ℤ
time_at es k = (get_or es k zero_entry).timestamp

abbrev pub rel_at : List TimeEntry → ℕ → ℕ
rel_at es k = (get_or es k zero_entry).rel_offset

-- Timestamps rise along the entries, and none passes `last_ts`.
pub record IsMonotone (t : TimeIndex) : Type 0 where
  pub rising : (j k : ℕ) → j < k → k < length t.entries → time_at t.entries j <ℤ time_at t.entries k
  pub newest : (k : ℕ) → k < length t.entries → time_at t.entries k ≤ℤ t.last_ts

-- The offset of the first entry whose time is at least `ts`; none if no entry reaches it.
abbrev pub IsTimeAnswer : List TimeEntry → ℤ → Option ℕ → Type 0
IsTimeAnswer es ts (some r) =
    (k : ℕ) × (k < length es)
    × (r ≡ rel_at es k)
    × (ts ≤ℤ time_at es k)
    × ((j : ℕ) → j < k → time_at es j <ℤ ts)
IsTimeAnswer es ts none = (j : ℕ) → j < length es → time_at es j <ℤ ts

module _ (t : TimeIndex) (ts : ℤ) (m : IsMonotone t) where
  abbrev reached : ℕ → Bool
  reached k = leb_ℤ ts (time_at t.entries k)

  earlier :
      (idx j : ℕ)
      → idx ≤ length t.entries
      → (idx ≡ 0) ⊎ (reached (idx - 1) ≡ false)
      → j < idx
      → time_at t.entries j <ℤ ts
  earlier idx j le before h = elim (Bool-cases (j == idx - 1)) [
    | inl same ↦ let e : j ≡ idx - 1 = ground arith in rw e (ground arith)
    | inr other ↦ ground (arith, m.rising j (idx - 1))
  ]

  border-IsTimeAnswer :
      (idx : ℕ)
      → idx ≤ length t.entries
      → (idx ≡ 0) ⊎ (reached (idx - 1) ≡ false)
      → (idx ≡ length t.entries) ⊎ (reached idx ≡ true)
      → 0 < length t.entries
      → IsTimeAnswer t.entries ts
          (if idx == length t.entries then none else some (rel_at t.entries idx))
  border-IsTimeAnswer idx le before after some_entry = elim (Bool-cases (idx == length t.entries)) [
    | inl end ↦ rw end (λ j h. earlier idx j le before (ground arith))
    | inr inside ↦
        rw inside (idx, ground arith, refl, ground arith, λ j h. earlier idx j le before h)
  ]

  -- On a time index with rising samples, `LookupOffset` answers with the first sample that reaches
  -- `ts`, and with none exactly if all samples lie before `ts`.
  pub lookup_offset_lem : IsTimeAnswer t.entries ts (lookup_offset t ts)
  unfolding lookup_offset
  lookup_offset_lem = elim (Bool-cases (length t.entries == 0)) [
    | inl empty ↦ rw empty (λ j h. absurd (ground arith))
    | inr full ↦
        let (le, before, after) = search-IsBorder (length t.entries) reached in
        rw full
          (border-IsTimeAnswer (search (length t.entries) reached) le before after (ground arith))
  ]

clamp-after :
    (t : TimeIndex) (ts : ℤ)
    → Is64 (t.last_ts +ℤ pos 1)
    → 0 < length t.entries
    → t.last_ts <ℤ clamp t ts
unfolding clamp
clamp-after t ts fits some_entry =
    ground (arith, wrap_64-id (t.last_ts +ℤ pos 1) fits, +ℤ_parts t.last_ts (pos 1))

abbrev pub grown : TimeIndex → ℤ → ℕ → ℕ → TimeIndex
grown t ts r position = record t {
  file = write t.file (entry_bytes (record { timestamp = ts; rel_offset = r }));
  entries = t.entries ++ (record { timestamp = ts; rel_offset = r } ∷ []);
  last_indexed_pos = position;
  last_ts = ts;
}

maybe_append_cases :
    (t t' : TimeIndex) (ts rel_offset : ℤ) (position : ℕ)
    → maybe_append t ts rel_offset position ≡ ok t'
    → (t' ≡ t) ⊎ ((r : ℕ) × (t' ≡ grown t (clamp t ts) r position))
unfolding maybe_append
maybe_append_cases t t' ts rel_offset position e =
    elim (Bool-cases
      (ltb position (t.last_indexed_pos + t.interval) && not (length t.entries == 0))) [
        | inl skip ↦ inl (ground arith)
        | inr add ↦ inr (bits_32 rel_offset, ground arith)
      ]

grown-IsMonotone :
    (t : TimeIndex) (ts : ℤ) (r position : ℕ)
    → (0 < length t.entries → t.last_ts <ℤ ts)
    → IsMonotone t
    → IsMonotone (grown t ts r position)
grown-IsMonotone t ts r position later m = record {
  rising = λ j k lt h. ground (
    arith,
    length-snoc t.entries e,
    at_front j,
    at_front k,
    at_end j,
    at_end k,
    m.newest j,
    m.rising j k,
    later,
  );
  newest = λ k h. ground (arith, length-snoc t.entries e, at_front k, at_end k, m.newest k, later);
}
  where
    e : TimeEntry
    e = record { timestamp = ts; rel_offset = r }

    at_front :
        (k : ℕ) → k < length t.entries → time_at (t.entries ++ (e ∷ [])) k ≡ time_at t.entries k
    at_front k h =
        ap (λ (x : TimeEntry). x.timestamp) (get_or-append_front t.entries (e ∷ []) k zero_entry h)

    at_end : (k : ℕ) → k ≡ length t.entries → time_at (t.entries ++ (e ∷ [])) k ≡ ts
    at_end k h = ap (λ (x : TimeEntry). x.timestamp) (get_or-snoc_end t.entries e k zero_entry h)

-- Every successful append keeps the samples in rising order, also under a clock that runs
-- backwards, as long as the last timestamp is not the largest int64.
pub maybe_append-IsMonotone :
    (t t' : TimeIndex) (ts rel_offset : ℤ) (position : ℕ)
    → maybe_append t ts rel_offset position ≡ ok t'
    → Is64 (t.last_ts +ℤ pos 1)
    → IsMonotone t
    → IsMonotone t'
maybe_append-IsMonotone t t' ts rel_offset position e fits m =
    elim (maybe_append_cases t t' ts rel_offset position e) [
      | inl same ↦ rw same m
      | inr (r, shape) ↦
          rw shape (grown-IsMonotone t (clamp t ts) r position (clamp-after t ts fits) m)
    ]

-- In a time index with rising samples, one at least, a batch that lies within the interval of the
-- last sample and is later than it is not sampled, and a lookup of its time finds nothing.
pub lookup_misses_unsampled :
    (t : TimeIndex) (ts rel_offset : ℤ) (position : ℕ)
    → IsMonotone t
    → 0 < length t.entries
    → position < t.last_indexed_pos + t.interval
    → t.last_ts <ℤ ts
    → (maybe_append t ts rel_offset position ≡ ok t) × (lookup_offset t ts ≡ none)
unfolding maybe_append
lookup_misses_unsampled t ts rel_offset position m some_entry near late = (
  ground arith,
  elim (Option-cases (lookup_offset t ts)) [
    | inl nothing ↦ nothing
    | inr (r, found) ↦
        let (k, h, _, reaches, _) =
          subst (IsTimeAnswer t.entries ts) found (lookup_offset_lem t ts m) in
        absurd (omega (arith, reaches, m.newest k h, late))
  ],
)
