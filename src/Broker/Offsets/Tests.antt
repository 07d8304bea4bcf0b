-- ===== src/Broker/Offsets/Tests.antt =====
-- A first commit of a group.
use kafka_wire.Prelude.{ℕ, ◌≡◌, ◌≢◌, refl, List, [], ◌∷◌, arith}
use kafka_wire.Prelude.Result.{ok}
use kafka_wire.Prelude.Int.{pos}
use kafka_wire.Prelude.Map.{same}
use kafka_wire.Broker.Names.{validate_name, check_characters, is_allowed}
use kafka_wire.Broker.Offsets.{commit_offset, fetch_offset}
use kafka_wire.Broker.Offsets.Commit.{commit_offset-fetch_offset, commit_offset-fetch_other}

abbrev group : List ℕ
group = 103 ∷ []

abbrev topic : List ℕ
topic = 116 ∷ []

group-valid : validate_name group ≡ ok tt
unfolding validate_name check_characters is_allowed same
group-valid = refl

topic-valid : validate_name topic ≡ ok tt
unfolding validate_name check_characters is_allowed same
topic-valid = refl

commit_offset-fetch_offset_example :
    fetch_offset (commit_offset [] 50 group topic (pos 2) (pos 42) (pos 0) []).0 group topic (pos 2)
    ≡ record { offset = pos 42; leader_epoch = pos 0; metadata = []; commit_timestamp = 50 }
commit_offset-fetch_offset_example =
    commit_offset-fetch_offset [] 50 group topic (pos 2) (pos 42) (pos 0) [] group-valid topic-valid

other_partition : group ≡ group → topic ≡ topic → pos 2 ≢ pos 3
other_partition g t e = ground (arith, e)

commit_offset-fetch_other_example :
    fetch_offset (commit_offset [] 50 group topic (pos 2) (pos 42) (pos 0) []).0 group topic (pos 3)
    ≡ fetch_offset [] group topic (pos 3)
commit_offset-fetch_other_example =
    commit_offset-fetch_other [] 50 group topic (pos 2) (pos 42) (pos 0) [] group topic (pos 3)
      other_partition
