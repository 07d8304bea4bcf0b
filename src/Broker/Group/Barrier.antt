-- ===== src/Broker/Group/Barrier.antt =====
-- internal/broker/group.go: JoinGroup and the barrier that it waits on.
use kafka_wire.Prelude.{
  ℕ, ◌+◌, ◌*◌, min, Bool, true, false, ◌&&◌, List, [], ◌∷◌, map, none, some, ltb, leb, ◌==◌, length,
  if◌then◌else◌,
}
use kafka_wire.Prelude.Int.{ℤ, pos, ltb_ℤ, pos_part}
use kafka_wire.Prelude.Map.{same, find, put}
use kafka_wire.Prelude.Select.{first}
use kafka_wire.Broker.Offsets.{MemberState, or_else}
use kafka_wire.Broker.Group.{
  JoinGroupResult, JoinGroupArgs, RebalanceRound, LiveGroup, Reply, current_round, with_round,
  member_id_required, rebalance_in_progress,
}
use kafka_wire.Broker.Group.GroupStatus.{preparing_rebalance}
use kafka_wire.Broker.Group.Reply.{answered, waiting}
use kafka_wire.Broker.Group.Members.{ids_of, evict_expired, evict_client, new_member_id}
use kafka_wire.Broker.Group.Protocol.{is_in, join_group_subscription_bytes}
use kafka_wire.Broker.Group.Close.{no_generation, close_round}

abbrev pub initial_rebalance_delay : ℕ
initial_rebalance_delay = 3000000000

unfoldable pub all_rejoined : RebalanceRound → List (List ℕ) → Bool
all_rejoined r [] = true
all_rejoined r (id ∷ ids) = is_in id r.joined && all_rejoined r ids

abbrev pub round_wait : ℤ → ℕ
round_wait rebalance_timeout_ms =
    if ltb_ℤ (pos 0) rebalance_timeout_ms
    then min (pos_part rebalance_timeout_ms * 1000000) initial_rebalance_delay
    else initial_rebalance_delay

-- A round is opened unless one is in flight. The new one is put before the earlier ones.
abbrev pub fresh_round : ℕ → JoinGroupArgs → LiveGroup → RebalanceRound
fresh_round now args lg = record {
  number = length lg.rounds;
  results = [];
  joined = [];
  expected = ids_of lg.persisted.members;
  deadline = now + round_wait args.rebalance_timeout_ms;
  closed = false;
  synced = false;
}

abbrev pub with_fresh : ℕ → JoinGroupArgs → LiveGroup → LiveGroup × RebalanceRound
with_fresh now args lg = (
  record lg { rounds = fresh_round now args lg ∷ lg.rounds; state = preparing_rebalance },
  fresh_round now args lg,
)

unfoldable pub open_round : ℕ → JoinGroupArgs → LiveGroup → LiveGroup × RebalanceRound
open_round now args lg = elim (current_round lg) [
  | none ↦ with_fresh now args lg
  | some r ↦ if r.closed then with_fresh now args lg else (lg, r)
]

abbrev pub joining : List ℕ → JoinGroupArgs → MemberState
joining member_id args = record {
  member_id = member_id;
  client_id = args.client_id;
  client_host = args.client_host;
  session_timeout_ms = args.session_timeout_ms;
  rebalance_timeout_ms = args.rebalance_timeout_ms;
  subscription = join_group_subscription_bytes args.protocols;
  assignment = [];
  protocols = map (λ p. p.name) args.protocols;
}

-- The member is entered in the group and in the round.
unfoldable pub enter : ℕ → List ℕ → JoinGroupArgs → LiveGroup → LiveGroup
enter now member_id args lg = record lg {
  persisted = record (lg.persisted) {
    members = put same member_id (joining member_id args) lg.persisted.members;
  };
  heartbeats = put same member_id now lg.heartbeats;
  protocol_type = args.protocol_type;
  protocols = args.protocols;
}

unfoldable pub join_round : List ℕ → RebalanceRound → RebalanceRound
join_round id r = record r { joined = if is_in id r.joined then r.joined else id ∷ r.joined }

unfoldable pub register : ℕ → List ℕ → JoinGroupArgs → LiveGroup → LiveGroup × Reply JoinGroupResult
register now member_id args lg =
    let opened = open_round now args lg in
    let r = join_round member_id opened.1 in
    let entered = with_round (enter now member_id args opened.0) r in
    (
      if ltb 0 (length r.expected) && all_rejoined r r.expected
          then close_round now entered r
          else entered,
      waiting r.number,
    )

-- JoinGroup from the point where it has the group to the point where it waits.
unfoldable pub join_group :
    ℕ → List ℕ → JoinGroupArgs → LiveGroup → LiveGroup × Reply JoinGroupResult
join_group now digits args lg =
    let swept = evict_expired now lg in
    let alone = evict_client args.client_id swept in
    let member_id = new_member_id args.client_id digits in
    if same args.member_id []
    then if leb 4 args.api_version
      then (
        alone,
        answered (record (no_generation args.group_id member_id member_id_required) {
          need_rejoin = true;
        }),
      )
      else register now member_id args alone
    else register now args.member_id args swept

-- The member that JoinGroup enters.
abbrev pub member_of : List ℕ → JoinGroupArgs → List ℕ
member_of digits args =
    if same args.member_id [] then new_member_id args.client_id digits else args.member_id

-- The goroutine of the round of that number, at its deadline.
unfoldable pub expire_round : ℕ → ℕ → LiveGroup → LiveGroup
expire_round now number lg = elim (current_round lg) [
  | none ↦ lg
  | some r ↦ if r.number == number then close_round now lg r else lg
]

-- JoinGroup after its wait: the round of that number is decided, or the longest wait is over.
unfoldable pub join_answer : LiveGroup → List ℕ → ℕ → List ℕ → JoinGroupResult
join_answer lg group_id number member_id =
    let refused = no_generation group_id member_id rebalance_in_progress in
    elim (first (λ r. r.number == number) lg.rounds) [
      | none ↦ refused
      | some r ↦ if r.closed then or_else (find same member_id r.results) refused else refused
    ]
