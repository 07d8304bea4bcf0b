-- ===== src/Storage/Log/Writing.antt =====
-- The writing loop of `Log.Append`: each batch of a validated request goes behind what the log holds.
use kafka_wire.Prelude.{
  ℕ, suc, ◌+◌, ◌≤◌, ◌≡◌, refl, ap, ◌∙◌, sym, subst, inl, inr, false, List, [], ◌∷◌, ◌++◌, All,
  length, append_assoc, append-nil, arith,
}
use kafka_wire.Prelude.Result.{ok, Result-cases, map_ok}
use kafka_wire.Prelude.Int.{ℤ, pos, ◌+ℤ◌, ◌≤ℤ◌, wrap_64, wrap_64-Is64}
use kafka_wire.Storage.File.{write, write-end}
use kafka_wire.Storage.Record.{
  BatchHeader, decode_header, last_offset, parse_batch_header, validate_crc,
  validate_batch_attributes, validate_batch_for_append,
}
use kafka_wire.Storage.Record.Fields.{parse-IsParsed}
use kafka_wire.Storage.Record.Stamp.{stamp, with_base, parse-stamp, validate_crc-stamp}
use kafka_wire.Storage.Segment
use kafka_wire.Storage.Segment.{Segment, Appended, note_batch}
use kafka_wire.Storage.Log.{
  Log, active_segment, set_active, high_watermark, roll_if_due, append_batch, append_loop,
}
use kafka_wire.Storage.Log.Writable.{
  IsOpen, IsWritable, log_bytes, segment_bytes, segment_bytes-snoc, active_segment-snoc,
  set_active-snoc, high_watermark-snoc, roll_if_due-Rolled,
}

-- The offset behind a batch that starts at an offset.
unfoldable pub offset_after : ℤ → List ℕ → ℤ
offset_after offset b = wrap_64 (wrap_64 (offset +ℤ (decode_header b).last_offset_delta) +ℤ pos 1)

-- The abstract log: the batches, each with its base offset set, one behind the other.
unfoldable pub stamped : ℤ → List (List ℕ) → List ℕ
stamped offset [] = []
stamped offset (b ∷ bs) = stamp b offset ++ stamped (offset_after offset b) bs

unfoldable pub end_offset : ℤ → List (List ℕ) → ℤ
end_offset offset [] = offset
end_offset offset (b ∷ bs) = end_offset (offset_after offset b) bs

-- No batch of the list takes the offset back (`Log.Rising.forward-IsRising` says when that is so). It
-- keeps a roll from the files of a segment that the log has already.
unfoldable pub IsRising : ℤ → List (List ℕ) → Type 0
IsRising offset [] = Unit
IsRising offset (b ∷ bs) = (offset ≤ℤ offset_after offset b) × IsRising (offset_after offset b) bs

abbrev pub IsValid : (List ℕ → ℕ) → List ℕ → Type 0
IsValid crc32c b = validate_batch_for_append crc32c b ≡ ok tt

-- A writable log with the bytes of another and more, and a high watermark.
abbrev pub Added : Log → Log → List ℕ → ℤ → Type 0
Added l l' bytes offset =
    IsWritable l' × (log_bytes l' ≡ log_bytes l ++ bytes) × (high_watermark l' ≡ offset)

still-above :
    (base next after end start : ℤ)
    → base ≤ℤ next
    → next ≤ℤ after
    → end ≡ after
    → start ≡ base
    → start ≤ℤ end
still-above base next after end start h k e f =
    subst (λ t. start ≤ℤ t) (sym e) (subst (λ t. t ≤ℤ after) (sym f) (omega (arith, h, k)))

module _ (crc32c : List ℕ → ℕ) where
  pub IsValid-checks :
      (b : List ℕ) (h : BatchHeader)
      → parse_batch_header b ≡ ok h
      → IsValid crc32c b
      → (61 ≤ length b)
        × (validate_crc crc32c b ≡ ok tt)
        × (validate_batch_attributes h.attributes ≡ ok tt)
  unfolding validate_batch_for_append
  IsValid-checks b h p v = elim (Result-cases (validate_crc crc32c b)) [
    | inl (tt, q) ↦ ground (arith, p, q)
    | inr (x, q) ↦ ground (arith, p, q)
  ]

  pub IsValid-header :
      (b : List ℕ) → IsValid crc32c b → (h : BatchHeader) × (parse_batch_header b ≡ ok h)
  unfolding validate_batch_for_append
  IsValid-header b v = elim (Result-cases (parse_batch_header b)) [
    | inl (h, p) ↦ (h, p)
    | inr (x, p) ↦ absurd (ground (arith, p))
  ]

  -- An open segment takes a batch that passes its checks.
  pub segment-append :
      (a : Segment) (b : List ℕ) (h : BatchHeader)
      → a.sealed ≡ false
      → parse_batch_header b ≡ ok h
      → validate_crc crc32c b ≡ ok tt
      → validate_batch_attributes h.attributes ≡ ok tt
      → Segment.append crc32c a b
        ≡ ok (record {
          segment =
              note_batch
                (record a { log_file = write a.log_file b; log_size = a.log_size + length b })
                h
                a.log_size;
          first = h.base_offset;
          last = last_offset h;
          position = a.log_size;
        })
  unfolding Segment.append
  segment-append a b h o p valid plain = rw (o, p, valid, plain)

  abbrev Takes : Segment → List ℕ → ℤ → Type 0
  Takes a b offset =
      (done : Appended) × (Segment.append crc32c a b ≡ ok done)
      × IsOpen done.segment
      × (done.segment.log_file.content ≡ a.log_file.content ++ b)
      × (done.segment.next_offset ≡ offset)
      × (done.segment.base_offset ≡ a.base_offset)

  segment-Takes :
      (a : Segment) (b : List ℕ)
      → IsOpen a
      → IsValid crc32c b
      → Takes a (stamp b a.next_offset) (offset_after a.next_offset b)
  unfolding note_batch offset_after last_offset
  segment-Takes a b o v =
      let (h, p) = IsValid-header b v in
      let (whole, valid, plain) = IsValid-checks b h p v in
      let parsed : parse_batch_header (stamp b a.next_offset) ≡ ok (with_base a.next_offset h) =
        parse-stamp b a.next_offset whole o.fits ∙ ap (map_ok (with_base a.next_offset)) p in
      let file = write-end a.log_file (stamp b a.next_offset) o.at_end in
      (
        _,
        segment-append a (stamp b a.next_offset) (with_base a.next_offset h) o.unsealed parsed
            (validate_crc-stamp crc32c b a.next_offset whole ∙ valid) plain,
        record { unsealed = o.unsealed; at_end = cc file; fits = wrap_64-Is64 _ },
        ap (λ f. f.content) file,
        ap (λ g. wrap_64 (wrap_64 (a.next_offset +ℤ g.last_offset_delta) +ℤ pos 1))
            (parse-IsParsed b h p).fields,
        refl,
      )

  pub append_batch-snoc :
      (l : Log) (b : List ℕ) (older : List Segment) (a : Segment) (done : Appended)
      → l.segments ≡ older ++ (a ∷ [])
      → Segment.append crc32c a (stamp b a.next_offset) ≡ ok done
      → append_batch crc32c l b
        ≡ (record l { segments = set_active l.segments done.segment }, ok tt)
  unfolding append_batch stamp
  append_batch-snoc l b older a done e p =
      rw (append_batch, ap active_segment e ∙ active_segment-snoc older a, p)

  -- One batch is written whatever its delta; the log stays writable where it does not go back.
  pub append_batch-Written :
      (l : Log) (b : List ℕ)
      → IsWritable l
      → IsValid crc32c b
      → (l' : Log) × (append_batch crc32c l b ≡ (l', ok tt))
        × (log_bytes l' ≡ log_bytes l ++ stamp b (high_watermark l))
        × (high_watermark l' ≡ offset_after (high_watermark l) b)
        × (high_watermark l ≤ℤ offset_after (high_watermark l) b → IsWritable l')
  unfolding log_bytes
  append_batch-Written l b (older, a, e, o, (below, here)) v =
      let (done, p, o', content, next, base) = segment-Takes a b o v in
      let hwm : high_watermark l ≡ a.next_offset = high_watermark-snoc l older a e in
      let shape : set_active l.segments done.segment ≡ older ++ (done.segment ∷ []) =
        ap (λ t. set_active t done.segment) e ∙ set_active-snoc older a done.segment in
      let l' : Log = record l { segments = set_active l.segments done.segment } in
      (
        l',
        append_batch-snoc l b older a done e p,
        ap segment_bytes shape
            ∙ segment_bytes-snoc older done.segment
            ∙ ap (λ t. segment_bytes older ++ t) content
            ∙ sym (append_assoc (segment_bytes older) a.log_file.content (stamp b a.next_offset))
            ∙ cc (segment_bytes-snoc older a, e, hwm),
        high_watermark-snoc l' older done.segment shape
            ∙ next
            ∙ ap (λ t. offset_after t b) (sym hwm),
        λ rises. (
          older,
          done.segment,
          shape,
          o',
          (
            subst (λ t. All (λ s. s.base_offset ≤ℤ t) older) (sym base) below,
            still-above a.base_offset a.next_offset _ _ _ here
                (subst (λ t. t ≤ℤ offset_after t b) hwm rises) next base,
          ),
        ),
      )

  append_batch-Added :
      (l : Log) (b : List ℕ)
      → IsWritable l
      → IsValid crc32c b
      → high_watermark l ≤ℤ offset_after (high_watermark l) b
      → (l' : Log) × (append_batch crc32c l b ≡ (l', ok tt))
        × Added l l' (stamp b (high_watermark l)) (offset_after (high_watermark l) b)
  append_batch-Added l b w v rises =
      let (l', run, bytes, next, writable) = append_batch-Written l b w v in
      (l', run, (writable rises, bytes, next))

  pub append_loop-more :
      (now : ℕ → ℕ) (i : ℕ) (l l' : Log) (b c : List ℕ) (bs : List (List ℕ))
      → append_batch crc32c l b ≡ (l', ok tt)
      → append_loop crc32c now i l (b ∷ (c ∷ bs))
        ≡ append_loop crc32c now (suc i) (roll_if_due crc32c (now i) l') (c ∷ bs)
  unfolding append_loop
  append_loop-more now i l l' b c bs e = rw (append_loop, ap (λ t. t.1) e, ap (λ t. t.0) e)

  abbrev Loops : (ℕ → ℕ) → ℕ → Log → List (List ℕ) → Type 0
  Loops now i l bs =
      (l' : Log) × (append_loop crc32c now i l bs ≡ (l', ok tt))
      × Added l l' (stamped (high_watermark l) bs) (end_offset (high_watermark l) bs)

  -- The writing loop stores every batch of a request that passed validation, and has no error left.
  pub append_loop-Added :
      (now : ℕ → ℕ) (i : ℕ) (l : Log) (bs : List (List ℕ))
      → IsWritable l
      → All (IsValid crc32c) bs
      → IsRising (high_watermark l) bs
      → Loops now i l bs
  unfolding append_loop stamped end_offset IsRising
  append_loop-Added now i l [] w v r = (l, refl, (w, sym (append-nil (log_bytes l)), refl))
  append_loop-Added now i l (b ∷ []) w v r =
      let (l', e, (w', bytes, next)) = append_batch-Added l b w v.0 r.0 in
      (l', e, (w', bytes ∙ ap (λ t. log_bytes l ++ t) (sym (append-nil _)), next))
  append_loop-Added now i l (b ∷ (c ∷ bs)) w v r =
      let (l', e, (w', bytes, next)) = append_batch-Added l b w v.0 r.0 in
      let (w'', same, hwm) = roll_if_due-Rolled crc32c (now i) l' w' in
      let at : high_watermark (roll_if_due crc32c (now i) l') ≡ offset_after (high_watermark l) b =
        hwm ∙ next in
      let (m, e', (wm, bytes', next')) =
        append_loop-Added now (suc i) (roll_if_due crc32c (now i) l') (c ∷ bs) w'' v.1
          (subst (λ t. IsRising t (c ∷ bs)) (sym at) r.1) in
      (
        m,
        append_loop-more now i l l' b c bs e ∙ e',
        (
          wm,
          bytes' ∙ cc (same, bytes, at) ∙ append_assoc (log_bytes l) (stamp b (high_watermark l)) _,
          next' ∙ ap (λ t. end_offset t (c ∷ bs)) at,
        ),
      )
