-- ===== src/Broker/Group/Delivery.antt =====
-- internal/broker/group.go: what SyncGroup hands to the members, and when.
use kafka_wire.Prelude.{
  ℕ, ◌≡◌, refl, ap, ◌∙◌, sym, inl, inr, true, false, List, [], ◌∷◌, none, some, Option, Bool-cases,
  Option-cases, ==_iff,
}
use kafka_wire.Prelude.Int.{eqb_ℤ}
use kafka_wire.Prelude.Map.{same, same_eq, find}
use kafka_wire.Prelude.Select.{first}
use kafka_wire.Broker.Offsets.{MemberState, or_else}
use kafka_wire.Broker.Group.{LiveGroup, RebalanceRound, SyncGroupArgs}
use kafka_wire.Broker.Group.Reply.{waiting}
use kafka_wire.Broker.Group.Members.{Members}
use kafka_wire.Broker.Group.Sync.{beat, assign, distribute, sync_group, sync_answer}

abbrev pub given : List (List ℕ × List ℕ) → List ℕ → MemberState → MemberState
given assignments id m = record m { assignment = or_else (find same id assignments) m.assignment }

abbrev pub given_to : List (List ℕ × List ℕ) → List ℕ → Option MemberState → Option MemberState
given_to assignments id none = none
given_to assignments id (some m) = some (given assignments id m)

moved :
    (assignments : List (List ℕ × List ℕ)) (id k : List ℕ) (o : Option (List ℕ))
    → same id k ≡ true
    → find same id assignments ≡ o
    → find same k assignments ≡ o
moved assignments id k o here e = ap (λ x. find same x assignments) (sym (same_eq id k here)) ∙ e

pub find-assign :
    (assignments : List (List ℕ × List ℕ)) (k : List ℕ) (ms : Members)
    → find same k (assign assignments ms) ≡ given_to assignments k (find same k ms)
unfolding assign find
find-assign assignments k [] = refl
find-assign assignments k ((id, m) ∷ ms) = elim (Option-cases (find same id assignments)) [
  | inl e ↦ elim (Bool-cases (same id k)) [
    | inl here ↦
        rw (assign, e, here)
          (ap (λ o. some (record m { assignment = or_else o m.assignment }))
            (sym (moved assignments id k _ here e)))
    | inr other ↦ rw (assign, e, other) (find-assign assignments k ms)
  ]
  | inr (a, e) ↦ elim (Bool-cases (same id k)) [
    | inl here ↦
        rw (assign, e, here)
          (ap (λ o. some (record m { assignment = or_else o m.assignment }))
            (sym (moved assignments id k _ here e)))
    | inr other ↦ rw (assign, e, other) (find-assign assignments k ms)
  ]
]

-- Requests of the leader and of a follower, both members of the current generation.
module _ (lg : LiveGroup) (r : RebalanceRound) (rs : List RebalanceRound)
    (lead follow : SyncGroupArgs) (l m : MemberState) where
  abbrev pub at : LiveGroup
  at = record lg { rounds = r ∷ rs }

  abbrev pub AreCurrent : Type 0
  AreCurrent =
      (eqb_ℤ lg.persisted.generation lead.generation ≡ true)
      × (eqb_ℤ lg.persisted.generation follow.generation ≡ true)
      × (find same lead.member_id lg.persisted.members ≡ some l)
      × (find same follow.member_id lg.persisted.members ≡ some m)
      × (same lead.member_id lg.leader ≡ true)
      × (same follow.member_id lg.leader ≡ false)

  follower_waits :
      (now : ℕ)
      → AreCurrent
      → r.synced ≡ false
      → sync_group now follow at ≡ (beat now follow.member_id at, waiting r.number)
  unfolding sync_group
  follower_waits now h early = rw (sync_group, h.1, h.3, h.5, early) refl

  leader_syncs :
      (now : ℕ)
      → AreCurrent
      → (sync_group now lead at).0 ≡ distribute now lead.assignments (beat now lead.member_id at)
  unfolding sync_group
  leader_syncs now h = rw (sync_group, h.0, h.2, h.4) refl

  follower_served :
      (now : ℕ)
      → AreCurrent
      → sync_answer (distribute now lead.assignments at) follow r.number ≡ record {
        assignment = or_else (find same follow.member_id lead.assignments) m.assignment;
        error_code = 0;
      }
  unfolding sync_answer first distribute
  follower_served now h =
      rw
        (
          sync_answer,
          first,
          (==_iff r.number r.number).1 refl,
          h.1,
          find-assign lead.assignments follow.member_id lg.persisted.members,
          h.3,
        )
        refl

module _ (lg : LiveGroup) (r : RebalanceRound) (rs : List RebalanceRound)
    (lead follow : SyncGroupArgs) (l m : MemberState) where
  -- A leader and another member of the current generation, whose round is not synced: the member's
  -- SyncGroup waits, and when the leader's follows, the member's answer is the assignment that the
  -- leader has given it, or its old one if the leader has given it none.
  pub sync_group-delivers :
      (now later : ℕ)
      → AreCurrent lg r rs lead follow l m
      → r.synced ≡ false
      → ((sync_group now follow (at lg r rs lead follow l m)).1 ≡ waiting r.number)
        × (sync_answer
              (sync_group later lead (sync_group now follow (at lg r rs lead follow l m)).0).0
              follow
              r.number
            ≡ record {
              assignment = or_else (find same follow.member_id lead.assignments) m.assignment;
              error_code = 0;
            })
  sync_group-delivers now later h early =
      let waited = follower_waits lg r rs lead follow l m now h early in
      let beaten = beat now follow.member_id lg in
      (
        ap (λ x. x.1) waited,
        ap (λ x. sync_answer (sync_group later lead x.0).0 follow r.number) waited
            ∙ ap (λ g. sync_answer g follow r.number)
                (leader_syncs beaten r rs lead follow l m later h)
            ∙ follower_served (beat later lead.member_id beaten) r rs lead follow l m later h,
      )
