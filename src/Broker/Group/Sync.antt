-- ===== src/Broker/Group/Sync.antt =====
-- internal/broker/group.go: SyncGroup, Heartbeat and LeaveGroup of one group. Writing the group's file
-- succeeds; of it only the time stamp is modelled.
use kafka_wire.Prelude.{
  ℕ, ◌/◌, Bool, true, false, List, [], ◌∷◌, none, some, ◌==◌, length, if◌then◌else◌,
}
use kafka_wire.Prelude.Int.{eqb_ℤ}
use kafka_wire.Prelude.Map.{same, find, put, remove}
use kafka_wire.Prelude.Select.{first}
use kafka_wire.Broker.Group.{
  GroupStatus, LiveGroup, SyncGroupArgs, SyncGroupResult, HeartbeatArgs, Reply, current_round,
  with_round, sync_error, illegal_generation, unknown_member, rebalance_in_progress,
}
use kafka_wire.Broker.Group.GroupStatus.{empty, preparing_rebalance, stable}
use kafka_wire.Broker.Group.Reply.{answered, waiting}
use kafka_wire.Broker.Group.Members.{Members, pick_leader}

abbrev pub beat : ℕ → List ℕ → LiveGroup → LiveGroup
beat now id lg = record lg { heartbeats = put same id now lg.heartbeats }

abbrev pub is_prepared : GroupStatus → Bool
is_prepared preparing_rebalance = true
is_prepared _ = false

-- `mm.Assignment = a` for the members that the leader's map names.
unfoldable pub assign : List (List ℕ × List ℕ) → Members → Members
assign assignments [] = []
assign assignments ((id, m) ∷ ms) = elim (find same id assignments) [
  | none ↦ (id, m) ∷ assign assignments ms
  | some a ↦ (id, record m { assignment = a }) ∷ assign assignments ms
]

abbrev pub assignment_of : List ℕ → Members → List ℕ
assignment_of id members = elim (find same id members) [ none ↦ [] | some m ↦ m.assignment ]

-- The leader's part: the assignments are stored, the group is stable, the current round is synced.
unfoldable pub distribute : ℕ → List (List ℕ × List ℕ) → LiveGroup → LiveGroup
distribute now assignments lg =
    let stored = record lg {
      persisted = record (lg.persisted) {
        members = assign assignments lg.persisted.members;
        updated_at = now / 1000000;
      };
      state = stable;
    } in
    elim (current_round lg) [
      | none ↦ stored
      | some r ↦ with_round stored (record r { synced = true })
    ]

-- SyncGroup up to its answer, or to the point where a follower waits.
unfoldable pub sync_group : ℕ → SyncGroupArgs → LiveGroup → LiveGroup × Reply SyncGroupResult
sync_group now args lg =
    let beaten = beat now args.member_id lg in
    let shared = distribute now args.assignments beaten in
    if eqb_ℤ lg.persisted.generation args.generation
    then elim (find same args.member_id lg.persisted.members) [
      | none ↦ (lg, answered (sync_error unknown_member))
      | some m ↦
          if same args.member_id lg.leader
          then (
            shared,
            answered (record {
              assignment = assignment_of args.member_id shared.persisted.members;
              error_code = 0;
            }),
          )
          else elim (current_round lg) [
            | none ↦ (beaten, answered (record { assignment = m.assignment; error_code = 0 }))
            | some r ↦
                if r.synced
                then (beaten, answered (record { assignment = m.assignment; error_code = 0 }))
                else (beaten, waiting r.number)
          ]
    ]
    else (lg, answered (sync_error illegal_generation))

-- A follower after its wait: the round of that number is synced, or the longest wait is over.
unfoldable pub sync_answer : LiveGroup → SyncGroupArgs → ℕ → SyncGroupResult
sync_answer lg args number = elim (first (λ r. r.number == number) lg.rounds) [
  | none ↦ sync_error rebalance_in_progress
  | some r ↦
      if r.synced
      then if eqb_ℤ lg.persisted.generation args.generation
        then elim (find same args.member_id lg.persisted.members) [
          | none ↦ sync_error unknown_member
          | some m ↦ record { assignment = m.assignment; error_code = 0 }
        ]
        else sync_error illegal_generation
      else sync_error rebalance_in_progress
]

unfoldable pub heartbeat : ℕ → HeartbeatArgs → LiveGroup → LiveGroup × ℕ
heartbeat now args lg =
    if eqb_ℤ lg.persisted.generation args.generation
    then elim (find same args.member_id lg.persisted.members) [
      | none ↦ (lg, unknown_member)
      | some m ↦
          (beat now args.member_id lg, if is_prepared lg.state then rebalance_in_progress else 0)
    ]
    else (lg, illegal_generation)

-- The group that a member has left, before its state is set.
abbrev pub without : ℕ → List ℕ → LiveGroup → LiveGroup
without now id lg =
    let rest = remove same id lg.persisted.members in
    let led = same lg.leader id in
    record lg {
      persisted = record (lg.persisted) {
        members = rest;
        leader = if led then pick_leader rest else lg.persisted.leader;
        updated_at = now / 1000000;
      };
      heartbeats = remove same id lg.heartbeats;
      leader = if led then pick_leader rest else lg.leader;
    }

unfoldable pub leave_group : ℕ → List ℕ → LiveGroup → LiveGroup × ℕ
leave_group now id lg = elim (find same id lg.persisted.members) [
  | none ↦ (lg, unknown_member)
  | some m ↦ (
    record (without now id lg) {
      state =
          if length (without now id lg).persisted.members == 0 then empty else preparing_rebalance;
    },
    0,
  )
]
