-- ===== src/Storage/Index/Lookup.antt =====
-- The binary search of `LookupPosition` against the entries read one by one.
use kafka_wire.Prelude.{
  ◌+◌, Bool-cases, not, ◌&&◌, ℕ, zero, suc, ◌-◌, ◌^◌, ◌≤◌, ◌<◌, ◌≡◌, refl, ap, ◌∙◌, ◌%◌, ◌⊎◌, inl,
  inr, List, [], ◌∷◌, ◌++◌, some, arith, length, get_or, Bool, true, false, ltb, ◌==◌,
  if◌then◌else◌, get_or-append_front, get_or-snoc_end, length-snoc,
}
use kafka_wire.Prelude.Result.{ok}
use kafka_wire.Prelude.Int.{ℤ, negsuc, pos, bits_32}
use kafka_wire.Prelude.Search.{search, search-IsBorder}
use kafka_wire.Storage.Index.{
  Index, IndexEntry, first_entry, maybe_append, lookup_position, entry_bytes,
}
use kafka_wire.Storage.File.{write}

abbrev pub rel_at : List IndexEntry → ℕ → ℕ
rel_at es k = (get_or es k first_entry).rel_offset

abbrev pub position_at : List IndexEntry → ℕ → ℕ
position_at es k = (get_or es k first_entry).position

-- Relative offsets do not fall along the entries.
pub record IsSorted (es : List IndexEntry) : Type 0 where
  pub rising : (j k : ℕ) → j ≤ k → k < length es → rel_at es j ≤ rel_at es k

-- What a lookup may answer: the position of the last entry at or before the target, or the start of
-- the log if every entry is past the target.
abbrev pub IsAnswer : List IndexEntry → ℕ → ℕ → Type 0
IsAnswer es target p =
    ((p ≡ 0) × ((j : ℕ) → j < length es → target < rel_at es j))
    ⊎ ((k : ℕ) × (k < length es)
        × (p ≡ position_at es k)
        × (rel_at es k ≤ target)
        × ((j : ℕ) → k < j → j < length es → target < rel_at es j))

module _ (i : Index) (target : ℕ) (fits : target < 2 ^ 32) (sorted : IsSorted i.entries) where
  abbrev past : ℕ → Bool
  past k = ltb target (rel_at i.entries k)

  beyond :
      (idx j : ℕ)
      → (idx ≡ length i.entries) ⊎ (past idx ≡ true)
      → idx ≤ j
      → j < length i.entries
      → target < rel_at i.entries j
  beyond idx j h le lt = ground (arith, sorted.rising idx j)

  answer :
      (idx : ℕ)
      → idx ≤ length i.entries
      → (idx ≡ 0) ⊎ (past (idx - 1) ≡ false)
      → (idx ≡ length i.entries) ⊎ (past idx ≡ true)
      → (p : ℕ) × ((if idx == 0 then some 0 else some (position_at i.entries (idx - 1))) ≡ some p)
        × IsAnswer i.entries target p
  answer zero le before after = (0, refl, inl (refl, λ j lt. beyond 0 j after (omega arith) lt))
  answer (suc k) le before after = (
    position_at i.entries (suc k - 1),
    ground arith,
    inr (
      suc k - 1,
      omega arith,
      refl,
      ground arith,
      λ j gt lt. beyond (suc k) j after (omega arith) lt,
    ),
  )

  lookup_position-eq :
      0 < length i.entries
      → lookup_position i (pos target) ≡ (
          if search (length i.entries) past == 0
          then some 0
          else some (position_at i.entries (search (length i.entries) past - 1)))
  unfolding lookup_position bits_32
  lookup_position-eq some_entry =
      let whole : target % 2 ^ 32 ≡ target = omega arith in rw whole (ground arith)

  -- On a sorted index that is not empty, `LookupPosition` of a relative offset below 2^32 answers
  -- with the last entry at or before it, or with the start of the log if every entry is past it.
  pub lookup_position_lem :
      0 < length i.entries
      → (p : ℕ) × (lookup_position i (pos target) ≡ some p) × IsAnswer i.entries target p
  lookup_position_lem some_entry =
      let (le, before, after) = search-IsBorder (length i.entries) past in
      let (p, e, a) = answer (search (length i.entries) past) le before after in
      (p, lookup_position-eq some_entry ∙ e, a)

abbrev pub entry_of : ℕ → ℕ → IndexEntry
entry_of rel_offset position = record { rel_offset = rel_offset; position = position }

abbrev pub grown : Index → ℕ → ℕ → Index
grown i rel_offset position = record i {
  file = write i.file (entry_bytes (entry_of rel_offset position));
  entries = i.entries ++ (entry_of rel_offset position ∷ []);
  last_indexed_pos = position;
}

-- An append that succeeds leaves the index as it was, or adds the one entry.
pub maybe_append_cases :
    (i i' : Index) (rel_offset : ℤ) (position : ℕ)
    → maybe_append i rel_offset position ≡ ok i'
    → (i' ≡ i)
      ⊎ ((r : ℕ) × (rel_offset ≡ pos r)
          × (r < 2 ^ 32)
          × (position < 2 ^ 32)
          × (i' ≡ grown i r position))
unfolding maybe_append bits_32
maybe_append_cases i i' (pos r) position e =
    elim (Bool-cases
      (ltb position (i.last_indexed_pos + i.interval) && not (length i.entries == 0))) [
        | inl skip ↦ inl (ground arith)
        | inr add ↦
            let small : r % 2 ^ 32 ≡ r = ground arith in
            inr (r, refl, ground arith, ground arith, ground (arith, small))
      ]
maybe_append_cases i i' (negsuc r) position e = inl (ground arith)

snoc-IsSorted :
    (es : List IndexEntry) (e : IndexEntry)
    → ((k : ℕ) → k < length es → rel_at es k ≤ e.rel_offset)
    → IsSorted es
    → IsSorted (es ++ (e ∷ []))
snoc-IsSorted es e newest sorted = record { rising = rising }
  where
    at_front : (k : ℕ) → k < length es → rel_at (es ++ (e ∷ [])) k ≡ rel_at es k
    at_front k h =
        ap (λ (t : IndexEntry). t.rel_offset) (get_or-append_front es (e ∷ []) k first_entry h)

    at_end : (k : ℕ) → k ≡ length es → rel_at (es ++ (e ∷ [])) k ≡ e.rel_offset
    at_end k h = ap (λ (t : IndexEntry). t.rel_offset) (get_or-snoc_end es e k first_entry h)

    rising :
        (j k : ℕ)
        → j ≤ k
        → k < length (es ++ (e ∷ []))
        → rel_at (es ++ (e ∷ [])) j ≤ rel_at (es ++ (e ∷ [])) k
    rising j k le lt = ground (
      arith,
      length-snoc es e,
      at_front j,
      at_front k,
      at_end j,
      at_end k,
      newest j,
      newest k,
      sorted.rising j k,
    )

-- A successful append whose offset does not fall behind an entry of the index keeps it sorted.
pub maybe_append-IsSorted :
    (i i' : Index) (rel_offset : ℕ) (position : ℕ)
    → maybe_append i (pos rel_offset) position ≡ ok i'
    → ((k : ℕ) → k < length i.entries → rel_at i.entries k ≤ rel_offset)
    → IsSorted i.entries
    → IsSorted i'.entries
maybe_append-IsSorted i i' rel_offset position e newest sorted =
    elim (maybe_append_cases i i' (pos rel_offset) position e) [
      | inl same ↦ rw same sorted
      | inr (r, same_rel, _, _, shape) ↦
          rw shape
            (snoc-IsSorted i.entries (entry_of r position) (λ k h. ground (arith, newest k)) sorted)
    ]
