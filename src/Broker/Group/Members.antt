-- ===== src/Broker/Group/Members.antt =====
-- internal/broker/group.go: who is a member, who is dropped, who leads, and the names of members.
use kafka_wire.Prelude.{
  ℕ, ◌+◌, ◌*◌, min, Bool, true, ◌&&◌, ◌||◌, List, [], ◌∷◌, ◌++◌, map, none, some, ltb, leb, ◌==◌,
  if◌then◌else◌,
}
use kafka_wire.Prelude.Int.{pos, ltb_ℤ, pos_part}
use kafka_wire.Prelude.Map.{same, find, remove}
use kafka_wire.Prelude.Select.{filter}
use kafka_wire.Prelude.Sort.{less, sort_by}
use kafka_wire.Broker.Offsets.{MemberState}
use kafka_wire.Broker.Group.{LiveGroup}

abbrev pub Members : Type 0
Members = List (List ℕ × MemberState)

abbrev pub ids_of : Members → List (List ℕ)
ids_of members = map (λ e. e.0) members

unfoldable pub pick_leader : Members → List ℕ
pick_leader members = elim (sort_by less (ids_of members)) [ [] ↦ [] | id ∷ ids ↦ id ]

-- `delete(lg.persisted.Members, id)`, `delete(lg.heartbeats, id)` and, of a leader, no leader any more.
unfoldable pub drop_member : List ℕ → LiveGroup → LiveGroup
drop_member id lg = record lg {
  persisted = record (lg.persisted) { members = remove same id lg.persisted.members };
  heartbeats = remove same id lg.heartbeats;
  leader = if same lg.leader id then [] else lg.leader;
}

-- The loop over the members that drops those that pass a test.
unfoldable pub drop_where : (List ℕ → MemberState → Bool) → Members → LiveGroup → LiveGroup
drop_where q [] lg = lg
drop_where q ((id, m) ∷ ms) lg = drop_where q ms (if q id m then drop_member id lg else lg)

abbrev pub fast_eviction_threshold : ℕ
fast_eviction_threshold = 3000000000

abbrev pub session_timeout : MemberState → ℕ
session_timeout m =
    if ltb_ℤ (pos 0) m.session_timeout_ms
    then pos_part m.session_timeout_ms * 1000000
    else 30000000000

unfoldable pub is_expired : ℕ → List (List ℕ × ℕ) → List ℕ → MemberState → Bool
is_expired now heartbeats id m = elim (find same id heartbeats) [
  | none ↦ true
  | some hb ↦ ltb (hb + min (session_timeout m) fast_eviction_threshold) now
]

unfoldable pub evict_expired : ℕ → LiveGroup → LiveGroup
evict_expired now lg = drop_where (is_expired now lg.heartbeats) lg.persisted.members lg

-- The earlier incarnations of a client that comes with no member id.
unfoldable pub evict_client : List ℕ → LiveGroup → LiveGroup
evict_client client_id lg =
    if same client_id []
    then lg
    else drop_where (λ id m. same m.client_id client_id) lg.persisted.members lg

-- "client"
abbrev pub default_client : List ℕ
default_client = 99 ∷ 108 ∷ 105 ∷ 101 ∷ 110 ∷ 116 ∷ []

unfoldable pub is_safe : ℕ → Bool
is_safe c =
    (leb 97 c && leb c 122)
    || (leb 65 c && leb c 90)
    || (leb 48 c && leb c 57)
    || (c == 46)
    || (c == 95)
    || (c == 45)

unfoldable pub sanitize_client_id : List ℕ → List ℕ
sanitize_client_id s = elim (filter is_safe s) [ [] ↦ default_client | c ∷ cs ↦ c ∷ cs ]

-- The sixteen hexadecimal digits that are drawn are an argument.
unfoldable pub new_member_id : List ℕ → List ℕ → List ℕ
new_member_id client_id digits = sanitize_client_id client_id ++ (45 ∷ digits)
