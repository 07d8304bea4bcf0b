-- ===== src/Broker/Names/Tests.antt =====
-- The name `a-1`.
use kafka_wire.Prelude.{ℕ, ◌≤◌, ◌<◌, ◌≡◌, ◌≢◌, ◌↔◌, List, [], ◌∷◌, All, length}
use kafka_wire.Prelude.Result.{ok}
use kafka_wire.Broker.Names.{dot, dot_dot, validate_name, IsPlain, validate_name_iff}

abbrev name : List ℕ
name = 97 ∷ (45 ∷ (49 ∷ []))

validate_name_iff_example :
    (validate_name name ≡ ok tt)
    ↔ ((0 < length name) × (length name ≤ 249) × (name ≢ dot) × (name ≢ dot_dot) × All IsPlain name)
validate_name_iff_example = validate_name_iff name
