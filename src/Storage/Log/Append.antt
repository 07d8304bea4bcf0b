-- ===== src/Storage/Log/Append.antt =====
-- `Log.Append` adds all of a request's batches behind everything the log holds, or none of them.
use kafka_wire.Prelude.{
  ℕ, ◌≡◌, ◌≢◌, refl, ap, ◌∙◌, sym, subst, ◌⊎◌, inl, inr, Bool, true, false, List, [], ◌∷◌, All,
  some,
}
use kafka_wire.Prelude.Result.{ok, err, Result-cases}
use kafka_wire.Storage.Record.{validate_batch_for_append}
use kafka_wire.Storage.Log.{
  Log, LogError, invalid_batch, active_segment, high_watermark, roll_if_due, validate_all,
  append_loop, append,
}
use kafka_wire.Storage.Log.Writable.{IsWritable, active_segment-snoc, roll_if_due-Rolled, Rolled}
use kafka_wire.Storage.Log.Writing.{
  IsValid, Added, stamped, end_offset, IsRising, append_loop-Added,
}
use kafka_wire.Storage.Log.Usable.{append_loop_total}

module _ (crc32c : List ℕ → ℕ) where
  validate_all-cases :
      (bs : List (List ℕ))
      → ((validate_all crc32c bs ≡ ok tt) × All (IsValid crc32c) bs)
        ⊎ ((x : LogError) × (validate_all crc32c bs ≡ err x))
  unfolding validate_all
  validate_all-cases [] = inl (refl, tt)
  validate_all-cases (b ∷ bs) = elim (Result-cases (validate_batch_for_append crc32c b)) [
    | inr (x, p) ↦ inr (invalid_batch x, rw (validate_all, p))
    | inl (u, p) ↦ elim (validate_all-cases bs) [
      | inl (q, v) ↦ inl (rw (validate_all, p) q, (p, v))
      | inr (x, q) ↦ inr (x, rw (validate_all, p) q)
    ]
  ]

  pub validate_all-valid :
      (bs : List (List ℕ)) → All (IsValid crc32c) bs → validate_all crc32c bs ≡ ok tt
  unfolding validate_all
  validate_all-valid [] v = refl
  validate_all-valid (b ∷ bs) v = rw (validate_all, v.0) (validate_all-valid bs v.1)

  active-IsWritable : (l : Log) (w : IsWritable l) → active_segment l.segments ≡ some w.1
  active-IsWritable l (older, a, e, o, r) = ap active_segment e ∙ active_segment-snoc older a

  pub append-validated :
      (now : ℕ → ℕ) (l l' : Log) (b : List ℕ) (bs : List (List ℕ))
      → IsWritable l
      → validate_all crc32c (b ∷ bs) ≡ ok tt
      → append_loop crc32c now 1 (roll_if_due crc32c (now 0) l) (b ∷ bs) ≡ (l', ok tt)
      → append crc32c false now l (b ∷ bs)
        ≡ (l', ok (high_watermark (roll_if_due crc32c (now 0) l)))
  unfolding append
  append-validated now l l' b bs w v e =
      rw (append, active-IsWritable l w, v, ap (λ t. t.1) e, ap (λ t. t.0) e)

  append-refused :
      (now : ℕ → ℕ) (l : Log) (b : List ℕ) (bs : List (List ℕ)) (x : LogError)
      → IsWritable l
      → validate_all crc32c (b ∷ bs) ≡ err x
      → append crc32c false now l (b ∷ bs) ≡ (roll_if_due crc32c (now 0) l, err x)
  unfolding append
  append-refused now l b bs x w v = rw (append, active-IsWritable l w, v)

  -- A request of one batch or more, all of which pass validation and none of which takes the offsets
  -- back, to a writable log while the disk guard does not object, is stored: the answer is the old high watermark, the log's bytes grow
  -- by the request's batches, each stamped with the offset behind the one before it, and the new
  -- high watermark is the offset behind the last. The log stays writable. Segments may roll before
  -- and between the batches.
  pub append-IsValid :
      (now : ℕ → ℕ) (l : Log) (bs : List (List ℕ))
      → IsWritable l
      → bs ≢ []
      → All (IsValid crc32c) bs
      → IsRising (high_watermark l) bs
      → (l' : Log) × (append crc32c false now l bs ≡ (l', ok (high_watermark l)))
        × Added l l' (stamped (high_watermark l) bs) (end_offset (high_watermark l) bs)
  append-IsValid now l [] w some_batch v rises = absurd (some_batch refl)
  append-IsValid now l (b ∷ bs) w some_batch v rises =
      let (w', same, hwm) = roll_if_due-Rolled crc32c (now 0) l w in
      let (l', e, (wl, bytes, next)) =
        append_loop-Added crc32c now 1 (roll_if_due crc32c (now 0) l) (b ∷ bs) w' v
          (subst (λ t. IsRising t (b ∷ bs)) (sym hwm) rises) in
      (
        l',
        append-validated now l l' b bs w (validate_all-valid (b ∷ bs) v) e
            ∙ ap (λ t. (l', ok t)) hwm,
        (wl, bytes ∙ cc (same, hwm), next ∙ ap (λ t. end_offset t (b ∷ bs)) hwm),
      )

  -- A refused request to a writable log leaves no trace: whatever the error, no byte of the log
  -- has changed, nor has its high watermark, and the log stays writable, also where a segment rolled.
  pub append-err :
      (paused : Bool) (now : ℕ → ℕ) (l l' : Log) (bs : List (List ℕ)) (x : LogError)
      → IsWritable l
      → append crc32c paused now l bs ≡ (l', err x)
      → Rolled l l'
  unfolding append
  append-err true now l l' bs x w e = subst (Rolled l) (ap (λ t. t.0) e) (w, refl, refl)
  append-err false now l l' [] x w e = subst (Rolled l) (ap (λ t. t.0) e) (w, refl, refl)
  append-err false now l l' (b ∷ bs) x w e = elim (validate_all-cases (b ∷ bs)) [
    | inl (p, v) ↦
        let (w', same, hwm) = roll_if_due-Rolled crc32c (now 0) l w in
        let rolled = roll_if_due crc32c (now 0) l in
        let stored = append_loop_total crc32c now 1 rolled (b ∷ bs) w' v in
        let run =
          append-validated now l _ b bs w p
            (ap (λ t. ((append_loop crc32c now 1 rolled (b ∷ bs)).0, t)) stored) in
        absurd (cc (sym run ∙ e))
    | inr (y, p) ↦
        subst (Rolled l) (ap (λ t. t.0) (sym (append-refused now l b bs y w p) ∙ e))
          (roll_if_due-Rolled crc32c (now 0) l w)
  ]
