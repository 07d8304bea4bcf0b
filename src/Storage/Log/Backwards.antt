-- ===== src/Storage/Log/Backwards.antt =====
-- The check on batches lets through one that takes the log's offsets back.
use kafka_wire.Prelude.{ℕ, ◌≡◌, ap, ◌∙◌, sym, subst, false, List, [], ◌∷◌, arith}
use kafka_wire.Prelude.Result.{ok}
use kafka_wire.Prelude.Int.{
  ℤ, pos, negsuc, ◌≤ℤ◌, ◌<ℤ◌, ◌+ℤ◌, Is32, Is64, wrap_64, wrap_64-id, +ℤ_parts, parts_disjoint,
}
use kafka_wire.Storage.Record.{decode_header}
use kafka_wire.Storage.Log.{Log, high_watermark, append, append_loop, roll_if_due}
use kafka_wire.Storage.Log.Writable.{IsWritable, high_watermark-snoc, roll_if_due-Rolled}
use kafka_wire.Storage.Log.Writing.{IsValid, offset_after, append_batch-Written}
use kafka_wire.Storage.Log.Append.{append-validated, validate_all-valid}

offset_after-lt :
    (offset : ℤ) (b : List ℕ)
    → pos 0 ≤ℤ offset
    → Is64 offset
    → Is32 (decode_header b).last_offset_delta
    → (decode_header b).last_offset_delta <ℤ negsuc 0
    → offset_after offset b <ℤ offset
unfolding offset_after
offset_after-lt offset b start fits small back =
    let delta = (decode_header b).last_offset_delta in
    let last = offset +ℤ delta in
    let sum = +ℤ_parts offset delta in
    let last_fits : Is64 last =
      omega (arith, sum, parts_disjoint last, parts_disjoint delta, parts_disjoint offset) in
    let next = +ℤ_parts last (pos 1) in
    let next_fits : Is64 (last +ℤ pos 1) = omega (
      arith,
      sum,
      next,
      parts_disjoint (last +ℤ pos 1),
      parts_disjoint last,
      parts_disjoint delta,
      parts_disjoint offset,
      last_fits,
      start,
      back,
      small,
      fits,
    ) in
    subst (λ t. t <ℤ offset)
      (sym (
        ap (λ t. wrap_64 (t +ℤ pos 1)) (wrap_64-id last last_fits)
        ∙ wrap_64-id (last +ℤ pos 1) next_fits))
      (omega (arith, sum, next, back))

-- The check does not look at the sign of the last offset delta. A valid batch whose delta is an
-- int32 below -1 is appended to a writable log, in which no segment starts above the active one and
-- that one has not gone back behind its start, and whose high watermark is not negative. Then the
-- high watermark is below the one before it, so that offsets already given out are given out again.
pub append-backwards :
    (crc32c : List ℕ → ℕ) (now : ℕ → ℕ) (l : Log) (b : List ℕ)
    → IsWritable l
    → IsValid crc32c b
    → pos 0 ≤ℤ high_watermark l
    → Is32 (decode_header b).last_offset_delta
    → (decode_header b).last_offset_delta <ℤ negsuc 0
    → (l' : Log) × (append crc32c false now l (b ∷ []) ≡ (l', ok (high_watermark l)))
      × (high_watermark l' <ℤ high_watermark l)
unfolding append_loop
append-backwards crc32c now l b w v start small back =
    let (older, a, e, o, r) = w in
    let (w', same, hwm) = roll_if_due-Rolled crc32c (now 0) l w in
    let rolled = roll_if_due crc32c (now 0) l in
    let (l', run, bytes, next, later) = append_batch-Written crc32c rolled b w' v in
    let fits : Is64 (high_watermark l) =
      subst Is64 (sym (high_watermark-snoc l older a e)) o.fits in
    (
      l',
      append-validated crc32c now l l' b [] w (validate_all-valid crc32c (b ∷ []) (v, tt)) run
          ∙ ap (λ t. (l', ok t)) hwm,
      subst (λ t. t <ℤ high_watermark l) (sym (next ∙ ap (λ t. offset_after t b) hwm))
          (offset_after-lt (high_watermark l) b start fits small back),
    )
