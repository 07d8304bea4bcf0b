-- ===== src/Broker/Group/Tests.antt =====
-- A group of two members, through its first rounds.
use kafka_wire.Prelude.{
  ℕ, ◌≡◌, ◌≢◌, refl, inr, true, false, ◌&&◌, List, [], ◌∷◌, ◌+◌, some, arith, if◌then◌else◌,
}
use kafka_wire.Prelude.Int.{pos}
use kafka_wire.Prelude.Map.{same, find, has}
use kafka_wire.Broker.Offsets.{MemberState, new_group}
use kafka_wire.Broker.Group.{
  LiveGroup, RebalanceRound, JoinGroupArgs, SyncGroupArgs, HeartbeatArgs, rebalance_in_progress,
}
use kafka_wire.Broker.Group.GroupStatus.{preparing_rebalance, stable}
use kafka_wire.Broker.Group.Reply.{answered, waiting}
use kafka_wire.Broker.Group.Members.{drop_where, evict_expired, evict_client}
use kafka_wire.Broker.Group.Protocol.{is_in, pick_common_protocol}
use kafka_wire.Broker.Group.Close.{
  next_generation, no_generation, result_for, drop_absent, choose_leader, settle, close_round,
}
use kafka_wire.Broker.Group.Barrier.{
  open_round, enter, join_round, register, join_group, expire_round, join_answer,
}
use kafka_wire.Broker.Group.Sync.{assign, distribute, sync_group, sync_answer}
use kafka_wire.Broker.Group.Coordinator.{
  GroupCoordinator, idle, load, new_group_coordinator, handle_join, handle_expire, handle_sync,
  handle_heartbeat, handle_leave,
}
use kafka_wire.Broker.Group.Settled.{IsLed, close_round-join_answer, close_round-IsLed}
use kafka_wire.Broker.Group.Common.{IsCommon, pick_common_protocol-IsCommon}
use kafka_wire.Broker.Group.Rounds.{IsOrdered, closed_rounds}
use kafka_wire.Broker.Group.Steps.{Step, Steps, advance, generation_counts}
use kafka_wire.Broker.Group.Leads.{LeadsIn, HasLeader}
use kafka_wire.Broker.Group.Leading.{Steps-HasLeader}
use kafka_wire.Broker.Group.Answer.{join_group-answered}
use kafka_wire.Broker.Group.Delivery.{sync_group-delivers}
use kafka_wire.Broker.Group.LateSync.{overtaken, late_sync}
use kafka_wire.Broker.Group.Isolation.{handlers-isolated, new_group_coordinator-load}

abbrev group : List ℕ
group = 103 ∷ []

abbrev a : List ℕ
a = 97 ∷ []

abbrev b : List ℕ
b = 98 ∷ []

abbrev range : List ℕ
range = 114 ∷ []

abbrev member : List ℕ → MemberState
member id = record {
  member_id = id;
  client_id = [];
  client_host = [];
  session_timeout_ms = pos 0;
  rebalance_timeout_ms = pos 0;
  subscription = [];
  assignment = [];
  protocols = range ∷ [];
}

abbrev round : RebalanceRound
round = record {
  number = 0;
  results = [];
  joined = b ∷ a ∷ [];
  expected = [];
  deadline = 0;
  closed = false;
  synced = false;
}

abbrev two : LiveGroup
two =
    record (idle group
      (record (new_group group 0) { members = (a, member a) ∷ (b, member b) ∷ [] })) {
        state = preparing_rebalance;
        leader = a;
        rounds = round ∷ [];
      }

abbrev closed_two : LiveGroup
closed_two = close_round 5 two round

close_round-join_answer_example :
    (has same b closed_two.persisted.members
      ≡ (has same b two.persisted.members && is_in b round.joined))
    × (closed_two.persisted.generation ≡ next_generation (pos 0))
    × (join_answer closed_two group 0 b ≡ (
        if has same b closed_two.persisted.members
        then result_for closed_two b
        else no_generation group b rebalance_in_progress))
close_round-join_answer_example = close_round-join_answer 5 two round group b refl refl

b_there : has same b two.persisted.members ≡ true
unfolding has find same
b_there = refl

b_came : is_in b round.joined ≡ true
unfolding is_in same
b_came = refl

close_round-IsLed_example :
    (has same closed_two.leader closed_two.persisted.members ≡ true)
    × IsLed closed_two b (join_answer closed_two group 0 b)
    × IsLed closed_two closed_two.leader (join_answer closed_two group 0 closed_two.leader)
close_round-IsLed_example = close_round-IsLed 5 two round group b refl refl b_there b_came

two-IsOrdered : IsOrdered two.rounds
unfolding IsOrdered
two-IsOrdered = (refl, λ e. refl, tt, tt)

two_closes : Steps two (expire_round 5 0 two)
two_closes =
    Steps.next two (expire_round 5 0 two) (expire_round 5 0 two) (Step.expire 5 0 two)
      (Steps.done (expire_round 5 0 two))

generation_counts_example :
    IsOrdered (expire_round 5 0 two).rounds
    × ((n : ℕ) × ((expire_round 5 0 two).persisted.generation ≡ advance n (pos 0))
        × (closed_rounds (expire_round 5 0 two).rounds ≡ n + closed_rounds two.rounds))
generation_counts_example = generation_counts two (expire_round 5 0 two) two_closes two-IsOrdered

two-HasLeader : HasLeader two
unfolding LeadsIn has find same
two-HasLeader = inr refl

Steps-HasLeader_example : HasLeader (expire_round 5 0 two)
Steps-HasLeader_example = Steps-HasLeader two (expire_round 5 0 two) two_closes two-HasLeader

two-IsCommon : IsCommon two.persisted.members range
unfolding is_in same
two-IsCommon = (refl, (refl, tt))

pick_common_protocol-IsCommon_example : IsCommon two.persisted.members (pick_common_protocol two)
pick_common_protocol-IsCommon_example =
    pick_common_protocol-IsCommon two range (omega arith) two-IsCommon

abbrev joining_b : JoinGroupArgs
joining_b = record {
  group_id = group;
  member_id = b;
  client_id = [];
  client_host = [];
  session_timeout_ms = pos 10000;
  rebalance_timeout_ms = pos 0;
  protocol_type = [];
  protocols = record { name = range; metadata = 1 ∷ [] } ∷ [];
  api_version = 5;
}

abbrev fresh : LiveGroup
fresh = idle group (new_group group 0)

b_waits : (join_group 7 [] joining_b fresh).1 ≡ waiting 0
unfolding join_group evict_expired drop_where evict_client register open_round enter join_round same
    is_in
b_waits = refl

fresh-IsOrdered : IsOrdered fresh.rounds
unfolding IsOrdered
fresh-IsOrdered = tt

join_group-answered_example :
    (join_answer (expire_round 9 0 (join_group 7 [] joining_b fresh).0) group 0 b
      ≡ result_for (expire_round 9 0 (join_group 7 [] joining_b fresh).0) b)
    × (has same b (expire_round 9 0 (join_group 7 [] joining_b fresh).0).persisted.members ≡ true)
    × ((expire_round 9 0 (join_group 7 [] joining_b fresh).0).persisted.generation
        ≡ next_generation (pos 0))
unfolding same
join_group-answered_example = join_group-answered 7 9 [] joining_b fresh 0 fresh-IsOrdered b_waits

abbrev lead : SyncGroupArgs
lead = record {
  group_id = group;
  generation = pos 0;
  member_id = a;
  assignments = (b, 8 ∷ []) ∷ [];
}

abbrev follow : SyncGroupArgs
follow = record { group_id = group; generation = pos 0; member_id = b; assignments = [] }

sync_group-delivers_example :
    ((sync_group 7 follow two).1 ≡ waiting 0)
    × (sync_answer (sync_group 9 lead (sync_group 7 follow two).0).0 follow 0
        ≡ record { assignment = 8 ∷ []; error_code = 0 })
unfolding find same
sync_group-delivers_example =
    sync_group-delivers two round [] lead follow (member a) (member b) 7 9
      (refl, refl, refl, refl, refl, refl) refl

abbrev follow_next : SyncGroupArgs
follow_next = record follow { generation = pos 1 }

abbrev served : MemberState
served = record (member b) { assignment = 8 ∷ [] }

late_sync_example :
    ((sync_group 7 lead two).0.state ≡ stable)
    × ((sync_group 9 follow_next (overtaken two round [] lead 7 8)).1
        ≡ answered (record { assignment = 8 ∷ []; error_code = 0 }))
unfolding sync_group distribute assign find same expire_round close_round settle drop_absent
    drop_where choose_leader is_in has next_generation
late_sync_example =
    late_sync two round [] lead 7 8 9 follow_next (member a) served refl refl refl refl refl refl
      refl

abbrev coordinator : GroupCoordinator
coordinator = record { store = []; live = (group, two) ∷ [] }

other_than_a : group ≢ a
other_than_a e = ground (arith, e)

abbrev beat_b : HeartbeatArgs
beat_b = record { group_id = group; member_id = b; generation = pos 0 }

handlers-isolated_example :
    (load (handle_join 7 [] joining_b coordinator).0 a ≡ load coordinator a)
    × (load (handle_expire 7 group 0 coordinator) a ≡ load coordinator a)
    × (load (handle_sync 7 lead coordinator).0 a ≡ load coordinator a)
    × (load (handle_heartbeat 7 beat_b coordinator).0 a ≡ load coordinator a)
    × (load (handle_leave 7 group b coordinator).0 a ≡ load coordinator a)
handlers-isolated_example =
    handlers-isolated coordinator group a 7 0 [] b joining_b lead beat_b other_than_a other_than_a
      other_than_a other_than_a

new_group_coordinator-load_example :
    load (new_group_coordinator ((group, two.persisted) ∷ [])) group
    ≡ some (idle group two.persisted)
unfolding find same
new_group_coordinator-load_example =
    new_group_coordinator-load ((group, two.persisted) ∷ []) group two.persisted (refl, tt) refl
