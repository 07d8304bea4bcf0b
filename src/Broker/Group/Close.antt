-- ===== src/Broker/Group/Close.antt =====
-- internal/broker/group.go: closeRound, which settles a generation. Of the file that it writes only the
-- time stamp set on the group is modelled.
use kafka_wire.Prelude.{ℕ, ◌+◌, ◌-◌, ◌/◌, true, false, not, List, [], ◌∷◌, map, ◌==◌, if◌then◌else◌}
use kafka_wire.Prelude.Int.{ℤ, pos, negsuc}
use kafka_wire.Prelude.Map.{same, put, has}
use kafka_wire.Prelude.Sort.{less, sort_by}
use kafka_wire.Broker.Offsets.{MemberState}
use kafka_wire.Broker.Group.{
  JoinGroupMember, JoinGroupResult, RebalanceRound, LiveGroup, with_round,
}
use kafka_wire.Broker.Group.GroupStatus.{completing_rebalance}
use kafka_wire.Broker.Group.Members.{Members, pick_leader, drop_where}
use kafka_wire.Broker.Group.Protocol.{is_in, pick_common_protocol}

-- `Generation++` in int32.
unfoldable pub next_generation : ℤ → ℤ
next_generation (pos n) = if n + 1 == 2147483648 then negsuc 2147483647 else pos (n + 1)
next_generation (negsuc n) = if n == 0 then pos 0 else negsuc (n - 1)

abbrev pub blank_result : JoinGroupResult
blank_result = record {
  group_id = [];
  generation = pos 0;
  protocol_type = [];
  protocol = [];
  leader_id = [];
  member_id = [];
  is_leader = false;
  members = [];
  error_code = 0;
  need_rejoin = false;
}

abbrev pub no_generation : List ℕ → List ℕ → ℕ → JoinGroupResult
no_generation group_id member_id code = record blank_result {
  group_id = group_id;
  member_id = member_id;
  error_code = code;
}

abbrev pub listed : MemberState → JoinGroupMember
listed m = record { member_id = m.member_id; metadata = m.subscription }

-- The members as the leader is told them.
unfoldable pub member_list : Members → List JoinGroupMember
member_list members = sort_by (λ x y. less x.member_id y.member_id) (map (λ e. listed e.1) members)

unfoldable pub result_for : LiveGroup → List ℕ → JoinGroupResult
result_for lg id = record {
  group_id = lg.id;
  generation = lg.persisted.generation;
  protocol_type = lg.persisted.protocol_type;
  protocol = lg.persisted.protocol;
  leader_id = lg.leader;
  member_id = id;
  is_leader = same id lg.leader;
  members = if same id lg.leader then member_list lg.persisted.members else [];
  error_code = 0;
  need_rejoin = false;
}

-- The answers, for those who joined and are still members.
unfoldable pub answer_all :
    LiveGroup → List (List ℕ) → List (List ℕ × JoinGroupResult) → List (List ℕ × JoinGroupResult)
answer_all lg [] results = results
answer_all lg (id ∷ ids) results =
    answer_all lg ids
      (if has same id lg.persisted.members then put same id (result_for lg id) results else results)

-- The group without the members that did not join.
unfoldable pub drop_absent : LiveGroup → RebalanceRound → LiveGroup
drop_absent lg r = drop_where (λ id m. not (is_in id r.joined)) lg.persisted.members lg

-- The leader stays if it is a member; there is no leader of the empty name.
unfoldable pub choose_leader : LiveGroup → List ℕ
choose_leader lg =
    if same lg.leader []
    then pick_leader lg.persisted.members
    else if has same lg.leader lg.persisted.members
    then lg.leader
    else pick_leader lg.persisted.members

-- The group as its new generation has it.
unfoldable pub settle : ℕ → LiveGroup → LiveGroup
settle now lg = record lg {
  leader = choose_leader lg;
  persisted = record (lg.persisted) {
    generation = next_generation lg.persisted.generation;
    leader = choose_leader lg;
    protocol_type = lg.protocol_type;
    protocol = pick_common_protocol lg;
    updated_at = now / 1000000;
  };
  state = completing_rebalance;
}

unfoldable pub close_round : ℕ → LiveGroup → RebalanceRound → LiveGroup
close_round now lg r =
    if r.closed
    then lg
    else let settled = settle now (drop_absent lg r) in
      with_round settled
        (record r { closed = true; results = answer_all settled r.joined r.results })
