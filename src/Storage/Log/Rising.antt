-- ===== src/Storage/Log/Rising.antt =====
-- Batches as clients make them take the offsets of a log forward.
use kafka_wire.Prelude.{
  ℕ, ◌+◌, ◌*◌, ◌^◌, ◌<◌, ◌≡◌, ap, ◌∙◌, sym, subst, List, [], ◌∷◌, All, length, arith,
}
use kafka_wire.Prelude.Int.{
  ℤ, pos, pos_part, ◌≤ℤ◌, ◌+ℤ◌, wrap_64, wrap_64-id, +ℤ_parts, parts_disjoint,
}
use kafka_wire.Storage.Record.{decode_header}
use kafka_wire.Storage.Log.Writing.{offset_after, IsRising}

-- The last offset delta is an int32 that is not negative.
abbrev pub IsForward : List ℕ → Type 0
IsForward b =
    (pos 0 ≤ℤ (decode_header b).last_offset_delta)
    × (pos_part (decode_header b).last_offset_delta < 2 ^ 31)

offset_after-rises :
    (offset : ℤ) (b : List ℕ)
    → pos 0 ≤ℤ offset
    → IsForward b
    → pos_part offset + 2 ^ 31 < 2 ^ 63
    → (offset ≤ℤ offset_after offset b)
      × (pos_part (offset_after offset b) < pos_part offset + 2 ^ 31 + 1)
unfolding offset_after
offset_after-rises offset b start (forward, small) room =
    let delta = (decode_header b).last_offset_delta in
    let last = offset +ℤ delta in
    let sum = +ℤ_parts offset delta in
    let next = +ℤ_parts last (pos 1) in
    let signs = parts_disjoint (last +ℤ pos 1) in
    let sign = parts_disjoint last in
    let exact : wrap_64 (wrap_64 last +ℤ pos 1) ≡ last +ℤ pos 1 =
      ap (λ t. wrap_64 (t +ℤ pos 1))
        (wrap_64-id last (
          omega (
            arith,
            sum,
            sign,
            start,
            forward,
            small,
            room,
            parts_disjoint offset,
            parts_disjoint delta,
          )))
      ∙ wrap_64-id (last +ℤ pos 1) (
          omega (
            arith,
            sum,
            next,
            sign,
            signs,
            start,
            forward,
            small,
            room,
            parts_disjoint offset,
            parts_disjoint delta,
          )) in
    subst (λ t. (offset ≤ℤ t) × (pos_part t < pos_part offset + 2 ^ 31 + 1)) (sym exact)
      (omega (
        arith,
        sum,
        next,
        sign,
        signs,
        start,
        forward,
        small,
        room,
        parts_disjoint offset,
        parts_disjoint delta,
      ))

-- Where the offsets cannot leave int64, a request of forward batches is rising.
pub forward-IsRising :
    (offset : ℤ) (bs : List (List ℕ))
    → pos 0 ≤ℤ offset
    → All IsForward bs
    → pos_part offset + 2 ^ 31 * length bs < 2 ^ 63
    → IsRising offset bs
unfolding IsRising
forward-IsRising offset [] start forward room = tt
forward-IsRising offset (b ∷ bs) start forward room =
    let (rises, near) = offset_after-rises offset b start forward.0 (omega arith) in
    (
      rises,
      forward-IsRising (offset_after offset b) bs
          (omega (arith, start, rises, parts_disjoint offset)) forward.1 (omega (arith, near)),
    )
