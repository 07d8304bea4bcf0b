-- ===== src/Broker/Group/Coordinator.antt =====
-- internal/broker/group.go: the coordinator with all its groups. The store and the live groups share each
-- group's state: it is read from the store and written back to it.
use kafka_wire.Prelude.{ℕ, ◌/◌, List, [], ◌∷◌, map, Option, none, some, String}
use kafka_wire.Prelude.Result.{ok, err}
use kafka_wire.Prelude.Int.{ℤ}
use kafka_wire.Prelude.Map.{same, find, put}
use kafka_wire.Broker.Names.{validate_name}
use kafka_wire.Broker.Offsets.{GroupState, OffsetStore, MemberState, get, or_else}
use kafka_wire.Broker.Group.{
  GroupStatus, LiveGroup, JoinGroupArgs, JoinGroupResult, SyncGroupArgs, SyncGroupResult,
  HeartbeatArgs, Reply, invalid_group_id, sync_error,
}
use kafka_wire.Broker.Group.GroupStatus.{
  empty, preparing_rebalance, completing_rebalance, stable, dead,
}
use kafka_wire.Broker.Group.Reply.{answered}
use kafka_wire.Broker.Group.Close.{no_generation}
use kafka_wire.Broker.Group.Barrier.{join_group, expire_round}
use kafka_wire.Broker.Group.Sync.{sync_group, heartbeat, leave_group}

pub record GroupCoordinator : Type 0 where
  pub store : OffsetStore
  pub live : List (List ℕ × LiveGroup)

abbrev pub idle : List ℕ → GroupState → LiveGroup
idle id gs = record {
  id = id;
  state = empty;
  persisted = gs;
  heartbeats = [];
  leader = [];
  protocol_type = [];
  protocols = [];
  rounds = [];
}

-- The groups of the store are adopted.
unfoldable pub adopt_all :
    List (List ℕ × GroupState) → List (List ℕ × LiveGroup) → List (List ℕ × LiveGroup)
adopt_all [] live = live
adopt_all ((id, gs) ∷ rest) live = adopt_all rest (put same gs.group_id (idle gs.group_id gs) live)

unfoldable pub new_group_coordinator : OffsetStore → GroupCoordinator
new_group_coordinator store = record { store = store; live = adopt_all store [] }

-- `lg, ok := g.live[groupID]`
abbrev pub with_state : Option LiveGroup → Option GroupState → Option LiveGroup
with_state none gs = none
with_state (some lg) gs = some (record lg { persisted = or_else gs lg.persisted })

unfoldable pub load : GroupCoordinator → List ℕ → Option LiveGroup
load c id = with_state (find same id c.live) (find same id c.store)

-- The group as an operation has left it.
unfoldable pub save : GroupCoordinator → List ℕ → LiveGroup → GroupCoordinator
save c id lg = record { store = put same id lg.persisted c.store; live = put same id lg c.live }

-- The coordinator with its store, which may have made the group, and the live group.
unfoldable pub find_or_create : ℕ → GroupCoordinator → List ℕ → GroupCoordinator × LiveGroup
find_or_create now c id =
    let (store, gs) = get c.store id (now / 1000000) in
    elim (load c id) [
      | none ↦ (record { store = store; live = put same id (idle id gs) c.live }, idle id gs)
      | some lg ↦ (c, lg)
    ]

unfoldable pub handle_join :
    ℕ → List ℕ → JoinGroupArgs → GroupCoordinator → GroupCoordinator × Reply JoinGroupResult
handle_join now digits args c = elim (validate_name args.group_id) [
  | err e ↦ (c, answered (no_generation [] [] invalid_group_id))
  | ok u ↦
      let found = find_or_create now c args.group_id in
      let joined = join_group now digits args found.1 in
      (save found.0 args.group_id joined.0, joined.1)
]

unfoldable pub handle_expire : ℕ → List ℕ → ℕ → GroupCoordinator → GroupCoordinator
handle_expire now group_id number c = elim (load c group_id) [
  | none ↦ c
  | some lg ↦ save c group_id (expire_round now number lg)
]

unfoldable pub handle_sync :
    ℕ → SyncGroupArgs → GroupCoordinator → GroupCoordinator × Reply SyncGroupResult
handle_sync now args c = elim (load c args.group_id) [
  | none ↦ (c, answered (sync_error invalid_group_id))
  | some lg ↦ let synced = sync_group now args lg in (save c args.group_id synced.0, synced.1)
]

unfoldable pub handle_heartbeat : ℕ → HeartbeatArgs → GroupCoordinator → GroupCoordinator × ℕ
handle_heartbeat now args c = elim (load c args.group_id) [
  | none ↦ (c, invalid_group_id)
  | some lg ↦ let beaten = heartbeat now args lg in (save c args.group_id beaten.0, beaten.1)
]

unfoldable pub handle_leave : ℕ → List ℕ → List ℕ → GroupCoordinator → GroupCoordinator × ℕ
handle_leave now group_id member_id c = elim (load c group_id) [
  | none ↦ (c, invalid_group_id)
  | some lg ↦ let left = leave_group now member_id lg in (save c group_id left.0, left.1)
]

abbrev pub status_name : GroupStatus → String
status_name empty = "Empty"
status_name preparing_rebalance = "PreparingRebalance"
status_name completing_rebalance = "CompletingRebalance"
status_name stable = "Stable"
status_name dead = "Dead"

pub record MemberSnapshot : Type 0 where
  pub member_id : List ℕ
  pub client_id : List ℕ
  pub client_host : List ℕ
  pub session_timeout_ms : ℤ
  pub last_heartbeat : ℕ

pub record Snapshot : Type 0 where
  pub group_id : List ℕ
  pub state : String
  pub generation : ℤ
  pub protocol : List ℕ
  pub members : List MemberSnapshot

-- The zero time is 0.
abbrev pub member_snapshot : LiveGroup → MemberState → MemberSnapshot
member_snapshot lg m = record {
  member_id = m.member_id;
  client_id = m.client_id;
  client_host = m.client_host;
  session_timeout_ms = m.session_timeout_ms;
  last_heartbeat = or_else (find same m.member_id lg.heartbeats) 0;
}

abbrev pub snapshot : LiveGroup → Snapshot
snapshot lg = record {
  group_id = lg.id;
  state = status_name lg.state;
  generation = lg.persisted.generation;
  protocol = lg.persisted.protocol;
  members = map (λ e. member_snapshot lg e.1) lg.persisted.members;
}

unfoldable pub all_groups : GroupCoordinator → List Snapshot
all_groups c =
    map (λ e. snapshot (record (e.1) { persisted = or_else (find same e.0 c.store) e.1.persisted }))
      c.live
