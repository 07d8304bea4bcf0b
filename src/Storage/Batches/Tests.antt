-- ===== src/Storage/Batches/Tests.antt =====
-- Two whole batches and a torn one.
use kafka_wire.Prelude.{
  ℕ, ◌≡◌, ◌↔◌, ◌≢◌, ap, List, [], ◌∷◌, ◌++◌, All, concat, arith, length, length-append,
}
use kafka_wire.Prelude.Result.{ok, err}
use kafka_wire.Storage.Batches.{IsFramed, split_batches, out_of_fuel}
use kafka_wire.Storage.Batches.Framing.{IsFramed-length}
use kafka_wire.Storage.Batches.Split.{split_batches_iff, split_batches-ne-out_of_fuel}
use kafka_wire.Storage.Batches.Trim.{IsTorn}
use kafka_wire.Storage.Samples.{sample}

abbrev two : List (List ℕ)
two = sample ∷ (sample ∷ [])

split_batches_iff_example :
    (split_batches (sample ++ sample) ≡ ok two)
    ↔ ((concat two ≡ sample ++ sample) × All IsFramed two)
split_batches_iff_example = split_batches_iff (sample ++ sample) two

short-IsTorn : IsTorn (0 ∷ [])
short-IsTorn b rest framed e =
    absurd (omega (arith, IsFramed-length b framed, length-append b rest, ap length e))

split_batches-ne-out_of_fuel_example : split_batches (sample ++ (1 ∷ [])) ≢ err out_of_fuel
split_batches-ne-out_of_fuel_example = split_batches-ne-out_of_fuel (sample ++ (1 ∷ []))
