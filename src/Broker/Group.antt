-- ===== src/Broker/Group.antt =====
-- internal/broker/group.go: the state of the coordinator of consumer groups. Strings are lists of bytes,
-- times are nanoseconds, error codes natural numbers. A Go map is an association list; the loops over one
-- take its order. The field `pending`, which nothing reads, is left out.
pub mod Members
pub mod Protocol
pub mod Close
pub mod Barrier
pub mod Sync
pub mod Coordinator
pub mod Isolation
pub mod Leader
pub mod Settled
pub mod Rounds
pub mod Common
pub mod Answer
pub mod Steps
pub mod Leads
pub mod Leading
pub mod Delivery
pub mod LateSync
mod Tests
use kafka_wire.Prelude.{ℕ, Bool, List, Option, none, some, [], ◌∷◌, drop, String}
use kafka_wire.Prelude.Int.{ℤ}
use kafka_wire.Broker.Offsets.{GroupState}

pub data GroupStatus : Type 0 where
  empty preparing_rebalance completing_rebalance stable dead : GroupStatus

pub record GroupProtocol : Type 0 where
  pub name : List ℕ
  pub metadata : List ℕ

pub record JoinGroupMember : Type 0 where
  pub member_id : List ℕ
  pub metadata : List ℕ

pub record JoinGroupResult : Type 0 where
  pub group_id : List ℕ
  pub generation : ℤ
  pub protocol_type : List ℕ
  pub protocol : List ℕ
  pub leader_id : List ℕ
  pub member_id : List ℕ
  pub is_leader : Bool
  pub members : List JoinGroupMember
  pub error_code : ℕ
  pub need_rejoin : Bool

pub record JoinGroupArgs : Type 0 where
  pub group_id : List ℕ
  pub member_id : List ℕ
  pub client_id : List ℕ
  pub client_host : List ℕ
  pub session_timeout_ms : ℤ
  pub rebalance_timeout_ms : ℤ
  pub protocol_type : List ℕ
  pub protocols : List GroupProtocol
  pub api_version : ℕ

-- One join barrier. Its number among the rounds of the group stands for its pointer; `closed` and
-- `synced` also say whether the channels `done` and `sync` are closed.
pub record RebalanceRound : Type 0 where
  pub number : ℕ
  pub results : List (List ℕ × JoinGroupResult)
  pub joined : List (List ℕ)
  pub expected : List (List ℕ)
  pub deadline : ℕ
  pub closed : Bool
  pub synced : Bool

-- The head of `rounds` is the field `round`; behind it are the earlier rounds, to which requests that
-- wait may still point.
pub record LiveGroup : Type 0 where
  pub id : List ℕ
  pub state : GroupStatus
  pub persisted : GroupState
  pub heartbeats : List (List ℕ × ℕ)
  pub leader : List ℕ
  pub protocol_type : List ℕ
  pub protocols : List GroupProtocol
  pub rounds : List RebalanceRound

abbrev pub current_round : LiveGroup → Option RebalanceRound
current_round lg = elim lg.rounds [ [] ↦ none | r ∷ rs ↦ some r ]

-- The group with its current round changed in place.
abbrev pub with_round : LiveGroup → RebalanceRound → LiveGroup
with_round lg r = record lg { rounds = r ∷ drop 1 lg.rounds }

pub record SyncGroupArgs : Type 0 where
  pub group_id : List ℕ
  pub generation : ℤ
  pub member_id : List ℕ
  pub assignments : List (List ℕ × List ℕ)

pub record SyncGroupResult : Type 0 where
  pub assignment : List ℕ
  pub error_code : ℕ

pub record HeartbeatArgs : Type 0 where
  pub group_id : List ℕ
  pub member_id : List ℕ
  pub generation : ℤ

-- What a request that may block has come to: an answer, or a wait on the round of that number.
pub data Reply {ℓ} (A : Type ℓ) : Type ℓ where
  answered : A → Reply A
  waiting : ℕ → Reply A

abbrev pub invalid_group_id : ℕ
invalid_group_id = 24

abbrev pub member_id_required : ℕ
member_id_required = 79

abbrev pub illegal_generation : ℕ
illegal_generation = 22

abbrev pub unknown_member : ℕ
unknown_member = 25

abbrev pub rebalance_in_progress : ℕ
rebalance_in_progress = 27

abbrev pub sync_error : ℕ → SyncGroupResult
sync_error code = record { assignment = []; error_code = code }
