-- ===== src/Broker/Offsets.antt =====
-- internal/broker/offsets.go: the offsets that consumer groups have committed. Strings are lists of
-- bytes. Writing a group's file back succeeds; of it only the time stamp it sets is modelled.
pub mod Commit
mod Tests
use kafka_wire.Prelude.{ℕ, ◌^◌, Bool, true, false, List, [], ◌∷◌, Option, none, some}
use kafka_wire.Prelude.Result.{Result, ok, err}
use kafka_wire.Prelude.Int.{ℤ, pos, negsuc, eqb_ℤ}
use kafka_wire.Prelude.Map.{same, find, put}
use kafka_wire.Broker.Names.{NameError, validate_name}

pub record CommittedOffset : Type 0 where
  pub offset : ℤ
  pub leader_epoch : ℤ
  pub metadata : List ℕ
  pub commit_timestamp : ℕ

pub record MemberState : Type 0 where
  pub member_id : List ℕ
  pub client_id : List ℕ
  pub client_host : List ℕ
  pub session_timeout_ms : ℤ
  pub rebalance_timeout_ms : ℤ
  pub subscription : List ℕ
  pub assignment : List ℕ
  pub protocols : List (List ℕ)

abbrev pub TopicOffsets : Type 0
TopicOffsets = List (ℤ × CommittedOffset)

pub record GroupState : Type 0 where
  pub group_id : List ℕ
  pub generation : ℤ
  pub protocol_type : List ℕ
  pub protocol : List ℕ
  pub members : List (List ℕ × MemberState)
  pub offsets : List (List ℕ × TopicOffsets)
  pub leader : List ℕ
  pub updated_at : ℕ

abbrev pub OffsetStore : Type 0
OffsetStore = List (List ℕ × GroupState)

abbrev pub new_group : List ℕ → ℕ → GroupState
new_group group_id now = record {
  group_id = group_id;
  generation = pos 0;
  protocol_type = [];
  protocol = [];
  members = [];
  offsets = [];
  leader = [];
  updated_at = now;
}

abbrev pub or_else {ℓ} : {A : Type ℓ} → Option A → A → A
or_else none a = a
or_else (some b) a = b

-- The group's state, created where it is absent, beside the store that has it.
unfoldable pub get : OffsetStore → List ℕ → ℕ → OffsetStore × GroupState
get s group_id now = elim (find same group_id s) [
  | some gs ↦ (s, gs)
  | none ↦ (put same group_id (new_group group_id now) s, new_group group_id now)
]

-- `gs.Offsets[topic][partition] = c`, the inner map created where it is absent.
unfoldable pub set_offset : GroupState → List ℕ → ℤ → CommittedOffset → GroupState
set_offset gs topic partition c = record gs {
  offsets =
      put same topic (put eqb_ℤ partition c (or_else (find same topic gs.offsets) [])) gs.offsets;
}

abbrev pub commit_valid : OffsetStore → ℕ → List ℕ → List ℕ → ℤ → CommittedOffset → OffsetStore
commit_valid s now group_id topic partition c =
    let gs = or_else (find same group_id s) (new_group group_id now) in
    put same group_id (record (set_offset gs topic partition c) { updated_at = now }) s

unfoldable pub commit_offset :
    OffsetStore
    → ℕ
    → List ℕ
    → List ℕ
    → ℤ
    → ℤ
    → ℤ
    → List ℕ
    → OffsetStore × Result NameError (Unit {0})
commit_offset s now group_id topic partition offset leader_epoch metadata =
    elim (validate_name group_id) [
      | err e ↦ (s, err e)
      | ok u ↦ elim (validate_name topic) [
        | err e ↦ (s, err e)
        | ok v ↦ (
          commit_valid s now group_id topic partition (record {
            offset = offset;
            leader_epoch = leader_epoch;
            metadata = metadata;
            commit_timestamp = now;
          }),
          ok tt,
        )
      ]
    ]

-- What stands for no commit.
abbrev pub no_offset : CommittedOffset
no_offset = record { offset = negsuc 0; leader_epoch = pos 0; metadata = []; commit_timestamp = 0 }

unfoldable pub fetch_offset : OffsetStore → List ℕ → List ℕ → ℤ → CommittedOffset
fetch_offset s group_id topic partition = elim (find same group_id s) [
  | none ↦ no_offset
  | some gs ↦ elim (find same topic gs.offsets) [
    | none ↦ no_offset
    | some parts ↦ elim (find eqb_ℤ partition parts) [ none ↦ no_offset | some c ↦ c ]
  ]
]

unfoldable pub all_offsets : OffsetStore → List ℕ → List (List ℕ × TopicOffsets)
all_offsets s group_id = elim (find same group_id s) [ none ↦ [] | some gs ↦ gs.offsets ]
