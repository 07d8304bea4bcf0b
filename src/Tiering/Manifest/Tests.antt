-- ===== src/Tiering/Manifest/Tests.antt =====
-- A manifest with a stale entry and one of another topic.
use kafka_wire.Prelude.{ℕ, ◌≡◌, ◌≢◌, List, [], ◌∷◌, some, arith}
use kafka_wire.Prelude.Int.{pos}
use kafka_wire.Tiering.Manifest.{SegmentEntry, Manifest, add_completed, lookup, find_archived}
use kafka_wire.Tiering.Manifest.Disjoint.{
  IsDisjoint, add_completed-IsDisjoint, find_archived-add_completed,
}

abbrev orders : List ℕ
orders = 111 ∷ []

abbrev events : List ℕ
events = 101 ∷ []

abbrev entry : List ℕ → ℕ → ℕ → SegmentEntry
entry topic base next = record {
  topic = topic;
  partition = pos 0;
  base_offset = pos base;
  next_offset = pos next;
  size_bytes = pos 100;
  sha256 = [];
  s3_key = base ∷ topic;
  uploaded_at = 7;
  tenant_id = [];
  hmac_signature = [];
}

abbrev stale : Manifest
stale = record { completed = entry orders 0 10 ∷ (entry events 0 3 ∷ []); pending = [] }

stale-IsDisjoint : IsDisjoint stale.completed
unfolding IsDisjoint
stale-IsDisjoint = (((λ t p. absurd (ground (arith, t))), tt), (tt, tt))

add_completed-IsDisjoint_example : IsDisjoint (add_completed stale (entry orders 5 20)).completed
add_completed-IsDisjoint_example =
    add_completed-IsDisjoint stale (entry orders 5 20) stale-IsDisjoint

find_archived-add_completed_example :
    (find_archived (add_completed stale (entry orders 5 20)) orders (pos 0) (pos 7)
      ≡ some (entry orders 5 20))
    × (lookup (add_completed stale (entry orders 5 20)) orders (pos 0) (pos 5)
        ≡ some (entry orders 5 20))
find_archived-add_completed_example =
    find_archived-add_completed stale (entry orders 5 20) (pos 7) (omega arith) (omega arith)

events-ne-orders : events ≢ orders
events-ne-orders e = ground (arith, e)
