-- ===== src/Wire/Frame/Varint.antt =====
-- What an accepted varint takes.
use kafka_wire.Prelude.{ℕ, ◌+◌, ◌*◌, ◌%◌, ◌^◌, ◌≤◌, ◌<◌, ◌≡◌, List, [], ◌∷◌, length, arith}
use Prim.Native.Nat.{bit_and, bit_or}
use kafka_wire.Prelude.Result.{ok}
use kafka_wire.Wire.Frame.{uvarint_loop, uvarint}

uvarint_loop_takes :
    (b : List ℕ) (i x s v n : ℕ)
    → i ≤ 9
    → uvarint_loop b i x s ≡ ok (v, n)
    → (i < n) × (n ≤ i + length b) × (n ≤ 10)
unfolding uvarint_loop
uvarint_loop_takes [] i x s v n hi e = ground arith
uvarint_loop_takes (c ∷ rest) i x s v n hi e = ground (
  arith,
  uvarint_loop_takes rest (i + 1) (bit_or x (bit_and c 0x7f * 2 ^ s % 2 ^ 64)) (s + 7) v n,
)

-- An accepted varint takes one to ten bytes, all of them there.
pub uvarint_takes :
    (b : List ℕ) (v n : ℕ) → uvarint b ≡ ok (v, n) → (0 < n) × (n ≤ length b) × (n ≤ 10)
unfolding uvarint
uvarint_takes b v n e = omega (arith, uvarint_loop_takes b 0 0 0 v n (omega arith) e)
