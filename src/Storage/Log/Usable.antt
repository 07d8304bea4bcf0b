-- ===== src/Storage/Log/Usable.antt =====
-- A validated request has no error left, wherever its offsets lead and whatever files a roll finds.
use kafka_wire.Prelude.{
  ℕ, zero, suc, ◌+◌, ◌≡◌, refl, ap, ◌∙◌, sym, subst, inl, inr, false, List, [], ◌∷◌, ◌++◌, All,
  length, drop, Bool-cases, Option-cases, if-both, ltb, ◌==◌,
}
use kafka_wire.Prelude.Result.{ok, map_ok}
use kafka_wire.Prelude.Int.{pos, Is64, wrap_64-Is64, eqb_ℤ, ◌+ℤ◌}
use kafka_wire.Storage.File.{write}
use kafka_wire.Storage.Record.{BatchHeader, batch_size, last_offset}
use kafka_wire.Storage.Record.Stamp.{stamp, with_base, parse-stamp, validate_crc-stamp}
use kafka_wire.Storage.Segment.{
  Segment, SegmentOpts, SegmentFiles, note_batch, good_batch, recover_loop, finish_recovery,
  recover, open_segment, seal,
}
use kafka_wire.Storage.Log.{Log, set_active, roll, roll_if_due, append_batch, append_loop}
use kafka_wire.Storage.Log.Writable.{
  IsWritable, set_active-snoc, roll-snoc, roll_same, roll_if_due-cases, opened,
}
use kafka_wire.Storage.Log.Writing.{
  IsValid, IsValid-checks, IsValid-header, segment-append, append_batch-snoc, append_loop-more,
}

IsUsable : Segment → Type 0
IsUsable s = (s.sealed ≡ false) × Is64 s.next_offset

CanWrite : Log → Type 0
CanWrite l = (older : List Segment) × (a : Segment) × (l.segments ≡ older ++ (a ∷ [])) × IsUsable a

IsWritable-CanWrite : (l : Log) → IsWritable l → CanWrite l
unfolding CanWrite IsUsable
IsWritable-CanWrite l (older, a, e, o, r) = (older, a, e, (o.unsealed, o.fits))

note_batch-IsUsable :
    (s : Segment) (h : BatchHeader) (position : ℕ)
    → s.sealed ≡ false
    → IsUsable (note_batch s h position)
unfolding note_batch IsUsable
note_batch-IsUsable s h position u = (u, wrap_64-Is64 (last_offset h +ℤ pos 1))

unsealed : (s : Segment) → IsUsable s → s.sealed ≡ false
unfolding IsUsable
unsealed s u = u.0

usable : (s : Segment) → s.sealed ≡ false → Is64 s.next_offset → IsUsable s
unfolding IsUsable
usable s u f = (u, f)

fits_next : (s : Segment) → IsUsable s → Is64 s.next_offset
unfolding IsUsable
fits_next s u = u.1

shape_of :
    (l : Log)
    → CanWrite l
    → (older : List Segment) × (a : Segment) × (l.segments ≡ older ++ (a ∷ []))
unfolding CanWrite
shape_of l (older, a, e, u) = (older, a, e)

module _ (crc32c : List ℕ → ℕ) where
  recover_loop-IsUsable :
      (fuel : ℕ) (s : Segment) (position : ℕ) (rest : List ℕ)
      → IsUsable s
      → IsUsable (recover_loop fuel crc32c s position rest).0
  unfolding recover_loop
  recover_loop-IsUsable zero s position rest u = u
  recover_loop-IsUsable (suc fuel) s position rest u =
      elim (Option-cases (good_batch crc32c rest)) [
        | inl e ↦ rw (recover_loop, e) u
        | inr (h, e) ↦
            rw (recover_loop, e)
              (recover_loop-IsUsable fuel (note_batch s h position) (position + batch_size h)
                (drop (batch_size h) rest) (note_batch-IsUsable s h position (unsealed s u)))
      ]

  finish-IsUsable : (r : Segment × ℕ) → IsUsable r.0 → IsUsable (finish_recovery r)
  unfolding finish_recovery IsUsable
  finish-IsUsable (s, position) u = elim (Bool-cases (ltb position s.log_size)) [
    | inl e ↦ rw e u
    | inr e ↦ rw e u
  ]

  recover-IsUsable :
      (s : Segment)
      → s.sealed ≡ false
      → Is64 s.base_offset
      → Is64 s.next_offset
      → IsUsable (recover crc32c s)
  unfolding recover
  recover-IsUsable s u base next = if-both IsUsable (s.log_size == 0) _ _ (usable _ u base) (
      finish-IsUsable _ (
        recover_loop-IsUsable (length s.log_file.content) _ 0 s.log_file.content (usable _ u next)))

  open_segment-IsUsable :
      (opts : SegmentOpts) (files : SegmentFiles)
      → Is64 opts.base_offset
      → IsUsable (open_segment crc32c opts files)
  unfolding open_segment
  open_segment-IsUsable opts files fits = recover-IsUsable _ refl fits fits

  roll-CanWrite : (now : ℕ) (l : Log) → CanWrite l → CanWrite (roll crc32c now l)
  unfolding CanWrite opened
  roll-CanWrite now l (older, a, e, u) = elim (Bool-cases (eqb_ℤ a.next_offset a.base_offset)) [
    | inl empty ↦ subst CanWrite (sym (roll_same crc32c now l older a e empty)) (older, a, e, u)
    | inr moved ↦ (
      older ++ (seal a ∷ []),
      opened crc32c now l older a,
      roll-snoc crc32c now l older a e moved,
      open_segment-IsUsable _ _ (fits_next a u),
    )
  ]

  roll_if_due-CanWrite : (now : ℕ) (l : Log) → CanWrite l → CanWrite (roll_if_due crc32c now l)
  roll_if_due-CanWrite now l w =
      let (older, a, e) = shape_of l w in
      elim (roll_if_due-cases crc32c now l older a e) [
        | inl p ↦ subst CanWrite (sym p) (roll-CanWrite now l w)
        | inr p ↦ subst CanWrite (sym p) w
      ]

  append_batch-CanWrite :
      (l : Log) (b : List ℕ)
      → CanWrite l
      → IsValid crc32c b
      → (l' : Log) × (append_batch crc32c l b ≡ (l', ok tt)) × CanWrite l'
  unfolding CanWrite IsUsable
  append_batch-CanWrite l b (older, a, e, (u, fits)) v =
      let (h, p) = IsValid-header crc32c b v in
      let (whole, valid, plain) = IsValid-checks crc32c b h p v in
      let h' = with_base a.next_offset h in
      let written : Segment = record a {
        log_file = write a.log_file (stamp b a.next_offset);
        log_size = a.log_size + length (stamp b a.next_offset);
      } in
      let done = note_batch written h' a.log_size in
      let parsed =
        parse-stamp b a.next_offset whole fits ∙ ap (map_ok (with_base a.next_offset)) p in
      let run =
        segment-append crc32c a (stamp b a.next_offset) h' u parsed
          (validate_crc-stamp crc32c b a.next_offset whole ∙ valid) plain in
      (
        _,
        append_batch-snoc crc32c l b older a _ e run,
        (
          older,
          done,
          ap (λ t. set_active t done) e ∙ set_active-snoc older a done,
          note_batch-IsUsable written h' a.log_size u,
        ),
      )

  append_loop-ok :
      (now : ℕ → ℕ) (i : ℕ) (l : Log) (bs : List (List ℕ))
      → CanWrite l
      → All (IsValid crc32c) bs
      → (append_loop crc32c now i l bs).1 ≡ ok tt
  unfolding append_loop
  append_loop-ok now i l [] w v = refl
  append_loop-ok now i l (b ∷ []) w v =
      let (l', e, w') = append_batch-CanWrite l b w v.0 in ap (λ t. t.1) e
  append_loop-ok now i l (b ∷ (c ∷ bs)) w v =
      let (l', e, w') = append_batch-CanWrite l b w v.0 in
      ap (λ t. t.1) (append_loop-more crc32c now i l l' b c bs e)
      ∙ append_loop-ok now (suc i) (roll_if_due crc32c (now i) l') (c ∷ bs)
          (roll_if_due-CanWrite (now i) l' w') v.1

  -- On a writable log the writing loop stores every batch of a validated request, or so it says.
  pub append_loop_total :
      (now : ℕ → ℕ) (i : ℕ) (l : Log) (bs : List (List ℕ))
      → IsWritable l
      → All (IsValid crc32c) bs
      → (append_loop crc32c now i l bs).1 ≡ ok tt
  append_loop_total now i l bs w v = append_loop-ok now i l bs (IsWritable-CanWrite l w) v
