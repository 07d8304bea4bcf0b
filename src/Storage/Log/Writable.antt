-- ===== src/Storage/Log/Writable.antt =====
-- Logs that can be written to, what they hold, and what rolling does to them.
use kafka_wire.Prelude.{
  ℕ, ◌≡◌, refl, ap, ◌∙◌, sym, subst, inl, inr, true, false, ◌⊎◌, List, [], ◌∷◌, ◌++◌, some, length,
  append_assoc, append-nil, Bool-cases, All, All-append, arith,
}
use kafka_wire.Prelude.Int.{ℤ, Is64, eqb_ℤ, pos_part, neg_part, ◌≤ℤ◌, ◌<ℤ◌}
use kafka_wire.Storage.Index.{open_index}
use kafka_wire.Storage.TimeIndex.{open_time_index}
use kafka_wire.Storage.Segment.{Segment, open_segment, recover, should_roll, seal}
use kafka_wire.Storage.Log.{
  Log, active_segment, set_active, high_watermark, roll, roll_if_due, new_files, files_at,
  segment_opts,
}

-- The active segment of a log that the broker has open: not sealed, the file positioned at its end.
pub record IsOpen (s : Segment) : Type 0 where
  pub unsealed : s.sealed ≡ false
  pub at_end : s.log_file.cursor ≡ length s.log_file.content
  pub fits : Is64 s.next_offset

-- No segment starts above the active one, and that one ends where it starts or later.
abbrev pub IsLatest : List Segment → Segment → Type 0
IsLatest older a =
    All (λ s. s.base_offset ≤ℤ a.base_offset) older × (a.base_offset ≤ℤ a.next_offset)

abbrev pub IsWritable : Log → Type 0
IsWritable l =
    (older : List Segment) × (a : Segment) × (l.segments ≡ older ++ (a ∷ []))
    × IsOpen a
    × IsLatest older a

-- Every byte of the partition, oldest segment first.
unfoldable pub segment_bytes : List Segment → List ℕ
segment_bytes [] = []
segment_bytes (s ∷ rest) = s.log_file.content ++ segment_bytes rest

unfoldable pub log_bytes : Log → List ℕ
log_bytes l = segment_bytes l.segments

pub active_segment-snoc :
    (older : List Segment) (a : Segment) → active_segment (older ++ (a ∷ [])) ≡ some a
unfolding active_segment
active_segment-snoc [] a = refl
active_segment-snoc (s ∷ []) a = refl
active_segment-snoc (s ∷ (t ∷ older)) a = active_segment-snoc (t ∷ older) a

pub set_active-snoc :
    (older : List Segment) (a b : Segment) → set_active (older ++ (a ∷ [])) b ≡ older ++ (b ∷ [])
unfolding set_active
set_active-snoc [] a b = refl
set_active-snoc (s ∷ []) a b = refl
set_active-snoc (s ∷ (t ∷ older)) a b = ap (λ rest. s ∷ rest) (set_active-snoc (t ∷ older) a b)

pub segment_bytes-append :
    (xs ys : List Segment) → segment_bytes (xs ++ ys) ≡ segment_bytes xs ++ segment_bytes ys
unfolding segment_bytes
segment_bytes-append [] ys = refl
segment_bytes-append (s ∷ xs) ys =
    ap (λ t. s.log_file.content ++ t) (segment_bytes-append xs ys)
    ∙ sym (append_assoc s.log_file.content (segment_bytes xs) (segment_bytes ys))

pub segment_bytes-snoc :
    (older : List Segment) (a : Segment)
    → segment_bytes (older ++ (a ∷ [])) ≡ segment_bytes older ++ a.log_file.content
unfolding segment_bytes
segment_bytes-snoc older a =
    segment_bytes-append older (a ∷ [])
    ∙ ap (λ t. segment_bytes older ++ t) (append-nil a.log_file.content)

pub high_watermark-snoc :
    (l : Log) (older : List Segment) (a : Segment)
    → l.segments ≡ older ++ (a ∷ [])
    → high_watermark l ≡ a.next_offset
unfolding high_watermark
high_watermark-snoc l older a e = rw (e, high_watermark, active_segment-snoc older a)

-- A writable log with the bytes and the high watermark of another.
abbrev pub Rolled : Log → Log → Type 0
Rolled l l' = IsWritable l' × (log_bytes l' ≡ log_bytes l) × (high_watermark l' ≡ high_watermark l)

All-map {ℓ} :
    {A : Type ℓ} (P Q : A → Type 0) (xs : List A) → ((x : A) → P x → Q x) → All P xs → All Q xs
All-map P Q [] f h = tt
All-map P Q (x ∷ xs) f h = (f x h.0, All-map P Q xs f h.1)

-- Behind all base offsets there are no files.
files_at-new :
    (segs : List Segment) (base : ℤ) (now : ℕ)
    → All (λ s. s.base_offset <ℤ base) segs
    → files_at segs base now ≡ new_files now
unfolding files_at
files_at-new [] base now h = refl
files_at-new (s ∷ rest) base now h =
    let other : eqb_ℤ s.base_offset base ≡ false = ground (arith, h.0) in
    rw (files_at, other) (files_at-new rest base now h.1)

module _ (crc32c : List ℕ → ℕ) (now : ℕ) where
  active :
      (l : Log) (older : List Segment) (a : Segment)
      → l.segments ≡ older ++ (a ∷ [])
      → active_segment l.segments ≡ some a
  active l older a e = ap active_segment e ∙ active_segment-snoc older a

  -- A segment that is created.
  created : Log → ℤ → Segment
  created l base = open_segment crc32c (segment_opts l.cfg base) (new_files now)

  created_lem :
      (l : Log) (base : ℤ)
      → ((created l base).next_offset ≡ base)
        × ((created l base).log_file.content ≡ [])
        × ((created l base).log_file.cursor ≡ 0)
        × ((created l base).sealed ≡ false)
        × ((created l base).base_offset ≡ base)
  unfolding created open_segment recover open_index open_time_index
  created_lem l base = (refl, refl, refl, refl, refl)

  -- The segment that a roll opens.
  unfoldable pub opened : Log → List Segment → Segment → Segment
  opened l older a =
      open_segment crc32c (segment_opts l.cfg a.next_offset)
        (files_at (older ++ (seal a ∷ [])) a.next_offset now)

  pub roll-snoc :
      (l : Log) (older : List Segment) (a : Segment)
      → l.segments ≡ older ++ (a ∷ [])
      → eqb_ℤ a.next_offset a.base_offset ≡ false
      → (roll crc32c now l).segments ≡ (older ++ (seal a ∷ [])) ++ (opened l older a ∷ [])
  unfolding roll opened
  roll-snoc l older a e moved =
      let replaced : set_active l.segments (seal a) ≡ older ++ (seal a ∷ []) =
        ap (λ t. set_active t (seal a)) e ∙ set_active-snoc older a (seal a) in
      rw (roll, active l older a e, moved)
        (ap
          (λ t.
            t
            ++ (open_segment crc32c (segment_opts l.cfg a.next_offset)
                  (files_at t a.next_offset now)
                ∷ []))
          replaced)

  -- Where no segment starts behind the active one, that segment is new.
  opened_new :
      (l : Log) (older : List Segment) (a : Segment)
      → IsLatest older a
      → eqb_ℤ a.next_offset a.base_offset ≡ false
      → opened l older a ≡ created l a.next_offset
  unfolding opened created seal
  opened_new l older a (below, here) moved =
      let ahead : a.base_offset <ℤ a.next_offset = ground (arith, here, moved) in
      ap (open_segment crc32c (segment_opts l.cfg a.next_offset)) (
        files_at-new (older ++ (seal a ∷ [])) a.next_offset now (
          All-append (λ s. s.base_offset <ℤ a.next_offset) older (seal a ∷ [])
            (All-map (λ s. s.base_offset ≤ℤ a.base_offset) (λ s. s.base_offset <ℤ a.next_offset)
              older (λ s h. omega (arith, h, ahead)) below)
            (ahead, tt)))

  pub roll_same :
      (l : Log) (older : List Segment) (a : Segment)
      → l.segments ≡ older ++ (a ∷ [])
      → eqb_ℤ a.next_offset a.base_offset ≡ true
      → roll crc32c now l ≡ l
  unfolding roll
  roll_same l older a e empty = rw (roll, active l older a e, empty)

  sealed_bytes :
      (older : List Segment) (a : Segment)
      → segment_bytes (older ++ (seal a ∷ [])) ≡ segment_bytes (older ++ (a ∷ []))
  unfolding seal
  sealed_bytes older a = segment_bytes-snoc older (seal a) ∙ sym (segment_bytes-snoc older a)

  created-IsLatest :
      (l : Log) (older : List Segment) (a : Segment)
      → IsLatest older a
      → IsLatest (older ++ (seal a ∷ [])) (created l a.next_offset)
  unfolding seal
  created-IsLatest l older a (below, here) =
      let (next, content, cursor, unsealed, base) = created_lem l a.next_offset in
      let P = λ (s : Segment). s.base_offset ≤ℤ (created l a.next_offset).base_offset in
      (
        All-append P older (seal a ∷ [])
            (All-map (λ s. s.base_offset ≤ℤ a.base_offset) P older
              (λ s h. subst (λ t. s.base_offset ≤ℤ t) (sym base) (omega (arith, h, here))) below)
            (subst (λ t. a.base_offset ≤ℤ t) (sym base) here, tt),
        omega (arith, ap pos_part base, ap neg_part base, ap pos_part next, ap neg_part next),
      )

  pub roll-Rolled : (l : Log) → IsWritable l → Rolled l (roll crc32c now l)
  unfolding log_bytes
  roll-Rolled l (older, a, e, o, r) = elim (Bool-cases (eqb_ℤ a.next_offset a.base_offset)) [
    | inl empty ↦
        subst (Rolled l) (sym (roll_same l older a e empty)) ((older, a, e, o, r), refl, refl)
    | inr moved ↦
        let shape =
          roll-snoc l older a e moved
          ∙ ap (λ t. (older ++ (seal a ∷ [])) ++ (t ∷ [])) (opened_new l older a r moved) in
        let (next, content, cursor, unsealed, base) = created_lem l a.next_offset in
        (
          (
            older ++ (seal a ∷ []),
            created l a.next_offset,
            shape,
            record {
              unsealed = unsealed;
              at_end = cc (content, cursor);
              fits = subst Is64 (sym next) o.fits;
            },
            created-IsLatest l older a r,
          ),
          ap segment_bytes shape
              ∙ segment_bytes-snoc (older ++ (seal a ∷ [])) (created l a.next_offset)
              ∙ ap (λ t. segment_bytes (older ++ (seal a ∷ [])) ++ t) content
              ∙ append-nil (segment_bytes (older ++ (seal a ∷ [])))
              ∙ sealed_bytes older a
              ∙ ap segment_bytes (sym e),
          high_watermark-snoc (roll crc32c now l) (older ++ (seal a ∷ [])) (created l a.next_offset)
                shape
              ∙ next
              ∙ sym (high_watermark-snoc l older a e),
        )
  ]

  pub roll_if_due-cases :
      (l : Log) (older : List Segment) (a : Segment)
      → l.segments ≡ older ++ (a ∷ [])
      → (roll_if_due crc32c now l ≡ roll crc32c now l) ⊎ (roll_if_due crc32c now l ≡ l)
  unfolding roll_if_due
  roll_if_due-cases l older a e = elim (Bool-cases (should_roll a now)) [
    | inl due ↦ inl (rw (roll_if_due, active l older a e, due))
    | inr young ↦ inr (rw (roll_if_due, active l older a e, young))
  ]

  -- A roll, due or not, changes neither the bytes of a log nor its high watermark.
  pub roll_if_due-Rolled : (l : Log) → IsWritable l → Rolled l (roll_if_due crc32c now l)
  roll_if_due-Rolled l (older, a, e, o, r) = elim (roll_if_due-cases l older a e) [
    | inl p ↦ subst (Rolled l) (sym p) (roll-Rolled l (older, a, e, o, r))
    | inr p ↦ subst (Rolled l) (sym p) ((older, a, e, o, r), refl, refl)
  ]
