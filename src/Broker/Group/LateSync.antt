-- ===== src/Broker/Group/LateSync.antt =====
-- internal/broker/group.go: SyncGroup of the leader while the next round is open. The generation is still
-- the old one then, so SyncGroup accepts it, marks the group as stable, and marks the open round as synced.
use kafka_wire.Prelude.{
  ℕ, ◌≡◌, refl, ap, ◌∙◌, sym, true, false, List, ◌∷◌, some, if◌then◌else◌, ==_iff, subst,
}
use kafka_wire.Prelude.Int.{eqb_ℤ}
use kafka_wire.Prelude.Map.{same, find}
use kafka_wire.Broker.Offsets.{MemberState}
use kafka_wire.Broker.Group.{LiveGroup, RebalanceRound, SyncGroupArgs}
use kafka_wire.Broker.Group.GroupStatus.{stable}
use kafka_wire.Broker.Group.Reply.{answered}
use kafka_wire.Broker.Group.Close.{close_round}
use kafka_wire.Broker.Group.Barrier.{expire_round}
use kafka_wire.Broker.Group.Sync.{beat, distribute, sync_group}
use kafka_wire.Broker.Group.Settled.{decided, close_round-rounds}

-- A follower of a group whose current round is synced does not wait.
synced_answers :
    (now : ℕ) (lg : LiveGroup) (r : RebalanceRound) (rs : List RebalanceRound)
    (follow : SyncGroupArgs) (m : MemberState)
    → lg.rounds ≡ (r ∷ rs)
    → r.synced ≡ true
    → eqb_ℤ lg.persisted.generation follow.generation ≡ true
    → find same follow.member_id lg.persisted.members ≡ some m
    → same follow.member_id lg.leader ≡ false
    → (sync_group now follow lg).1 ≡ answered (record { assignment = m.assignment; error_code = 0 })
unfolding sync_group
synced_answers now lg r rs follow m head synced current there other =
    subst
      (λ xs.
        (sync_group now follow (record lg { rounds = xs })).1
        ≡ answered (record { assignment = m.assignment; error_code = 0 }))
      (sym head) (rw (sync_group, current, there, other, synced) refl)

module _ (lg : LiveGroup) (r : RebalanceRound) (rs : List RebalanceRound)
    (lead : SyncGroupArgs) where
  -- The group after the leader's late request, and after the round is over.
  abbrev pub overtaken : ℕ → ℕ → LiveGroup
  overtaken now deadline =
      expire_round deadline r.number (sync_group now lead (record lg { rounds = r ∷ rs })).0

  shared : ℕ → LiveGroup
  shared now =
      distribute now lead.assignments (beat now lead.member_id (record lg { rounds = r ∷ rs }))

  leader_syncs :
      (now : ℕ) (l : MemberState)
      → eqb_ℤ lg.persisted.generation lead.generation ≡ true
      → find same lead.member_id lg.persisted.members ≡ some l
      → same lead.member_id lg.leader ≡ true
      → (sync_group now lead (record lg { rounds = r ∷ rs })).0 ≡ shared now
  unfolding sync_group shared
  leader_syncs now l current there leads = rw (sync_group, current, there, leads) refl

  overtaken-rounds :
      (now deadline : ℕ)
      → (sync_group now lead (record lg { rounds = r ∷ rs })).0 ≡ shared now
      → r.closed ≡ false
      → (d : RebalanceRound) × ((overtaken now deadline).rounds ≡ (d ∷ rs)) × (d.synced ≡ true)
  unfolding shared distribute expire_round
  overtaken-rounds now deadline e still =
      let marked = record r { synced = true } in
      let d = decided deadline (shared now) marked in
      (
        d,
        ap (λ g. (expire_round deadline r.number g).rounds) e
            ∙ ap (λ b. (if b then close_round deadline (shared now) marked else shared now).rounds)
                ((==_iff r.number r.number).1 refl)
            ∙ (close_round-rounds deadline (shared now) marked still).0,
        refl,
      )

  -- The leader of the current generation sends its assignments while the next round is open. The
  -- group is stable at once, so that heartbeats no longer tell the members to rejoin; and after the
  -- round has expired, a member of the new generation who does not lead gets the assignment on file
  -- at once, without waiting for the leader.
  pub late_sync :
      (now deadline later : ℕ) (follow : SyncGroupArgs) (l m : MemberState)
      → r.closed ≡ false
      → eqb_ℤ lg.persisted.generation lead.generation ≡ true
      → find same lead.member_id lg.persisted.members ≡ some l
      → same lead.member_id lg.leader ≡ true
      → eqb_ℤ (overtaken now deadline).persisted.generation follow.generation ≡ true
      → find same follow.member_id (overtaken now deadline).persisted.members ≡ some m
      → same follow.member_id (overtaken now deadline).leader ≡ false
      → ((sync_group now lead (record lg { rounds = r ∷ rs })).0.state ≡ stable)
        × ((sync_group later follow (overtaken now deadline)).1
            ≡ answered (record { assignment = m.assignment; error_code = 0 }))
  unfolding shared distribute
  late_sync now deadline later follow l m still current there leads current' there' other =
      let e = leader_syncs now l current there leads in
      let (d, rounds, synced) = overtaken-rounds now deadline e still in
      (
        ap (λ g. g.state) e,
        synced_answers later (overtaken now deadline) d rs follow m rounds synced current' there'
            other,
      )
