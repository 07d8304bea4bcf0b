-- ===== src/Broker/Group/Leading.antt =====
-- internal/broker/group.go: the leader of a group is one of its members, whatever happens to it.
use kafka_wire.Prelude.{ℕ, ◌&&◌, List, [], length, ltb, leb, if-both, option-both, ◌==◌}
use kafka_wire.Prelude.Int.{eqb_ℤ}
use kafka_wire.Prelude.Map.{same, find}
use kafka_wire.Broker.Offsets.{set_offset}
use kafka_wire.Broker.Group.{
  LiveGroup, RebalanceRound, JoinGroupArgs, JoinGroupResult, SyncGroupArgs, SyncGroupResult,
  HeartbeatArgs, Reply, current_round, with_round,
}
use kafka_wire.Broker.Group.Members.{evict_expired, evict_client, new_member_id}
use kafka_wire.Broker.Group.Barrier.{
  open_round, enter, join_round, register, join_group, expire_round, all_rejoined,
}
use kafka_wire.Broker.Group.Sync.{distribute, sync_group, heartbeat, leave_group}
use kafka_wire.Broker.Group.Steps.{Step, Steps}
use kafka_wire.Broker.Group.Leads.{
  HasLeader, put-LeadsIn, assign-LeadsIn, leave-LeadsIn, drop_where-HasLeader,
  close_round-HasLeader,
}

module _ (now : ℕ) (args : JoinGroupArgs) (lg : LiveGroup) (h : HasLeader lg) where
  open_round-HasLeader : HasLeader (open_round now args lg).0
  unfolding open_round
  open_round-HasLeader =
      let P = λ (o : LiveGroup × RebalanceRound). HasLeader o.0 in
      option-both P (current_round lg) _ _ h λ r. if-both P r.closed _ _ h h

  register-HasLeader : (id : List ℕ) → HasLeader (register now id args lg).0
  unfolding register enter
  register-HasLeader id =
      let o = open_round now args lg in
      let r = join_round id o.1 in
      let g = with_round (enter now id args o.0) r in
      let entered : HasLeader g =
        put-LeadsIn o.0.leader id _ o.0.persisted.members open_round-HasLeader in
      if-both HasLeader (ltb 0 (length r.expected) && all_rejoined r r.expected) _ g
        (close_round-HasLeader now g r entered) entered

evict_client-HasLeader :
    (client_id : List ℕ) (lg : LiveGroup) → HasLeader lg → HasLeader (evict_client client_id lg)
unfolding evict_client
evict_client-HasLeader client_id lg h =
    if-both HasLeader (same client_id []) lg _ h
      (drop_where-HasLeader (λ id m. same m.client_id client_id) lg.persisted.members lg h)

join_group-HasLeader :
    (now : ℕ) (digits : List ℕ) (args : JoinGroupArgs) (lg : LiveGroup)
    → HasLeader lg
    → HasLeader (join_group now digits args lg).0
unfolding join_group evict_expired
join_group-HasLeader now digits args lg h =
    let swept = evict_expired now lg in
    let alone = evict_client args.client_id swept in
    let P = λ (g : LiveGroup × Reply JoinGroupResult). HasLeader g.0 in
    let swept_leader : HasLeader swept = drop_where-HasLeader _ lg.persisted.members lg h in
    let alone_leader : HasLeader alone = evict_client-HasLeader args.client_id swept swept_leader in
    if-both P (same args.member_id []) _ _
      (if-both P (leb 4 args.api_version) _ _ alone_leader
        (register-HasLeader now args alone alone_leader (new_member_id args.client_id digits)))
      (register-HasLeader now args swept swept_leader args.member_id)

expire_round-HasLeader :
    (now number : ℕ) (lg : LiveGroup) → HasLeader lg → HasLeader (expire_round now number lg)
unfolding expire_round
expire_round-HasLeader now number lg h =
    option-both HasLeader (current_round lg) _ _ h
      λ r. if-both HasLeader (r.number == number) _ _ (close_round-HasLeader now lg r h) h

sync_group-HasLeader :
    (now : ℕ) (args : SyncGroupArgs) (lg : LiveGroup)
    → HasLeader lg
    → HasLeader (sync_group now args lg).0
unfolding sync_group distribute
sync_group-HasLeader now args lg h =
    let P = λ (g : LiveGroup × Reply SyncGroupResult). HasLeader g.0 in
    let assigned = assign-LeadsIn args.assignments lg.leader lg.persisted.members h in
    if-both P (eqb_ℤ lg.persisted.generation args.generation) _ _
      (option-both P (find same args.member_id lg.persisted.members) _ _ h λ m.
        if-both P (same args.member_id lg.leader) _ _
          (option-both HasLeader (current_round lg) _ _ assigned λ r. assigned)
          (option-both P (current_round lg) _ _ h λ r. if-both P r.synced _ _ h h))
      h

leave_group-HasLeader :
    (now : ℕ) (id : List ℕ) (lg : LiveGroup) → HasLeader lg → HasLeader (leave_group now id lg).0
unfolding leave_group
leave_group-HasLeader now id lg h =
    let P = λ (g : LiveGroup × ℕ). HasLeader g.0 in
    option-both P (find same id lg.persisted.members) _ _ h
      λ m. leave-LeadsIn lg.leader id lg.persisted.members h

heartbeat-HasLeader :
    (now : ℕ) (args : HeartbeatArgs) (lg : LiveGroup)
    → HasLeader lg
    → HasLeader (heartbeat now args lg).0
unfolding heartbeat
heartbeat-HasLeader now args lg h =
    let P = λ (g : LiveGroup × ℕ). HasLeader g.0 in
    if-both P (eqb_ℤ lg.persisted.generation args.generation) _ _
      (option-both P (find same args.member_id lg.persisted.members) _ _ h λ m. h) h

step-HasLeader : (lg lg' : LiveGroup) → Step lg lg' → HasLeader lg → HasLeader lg'
unfolding set_offset
step-HasLeader _ _ (Step.join now digits args lg) h = join_group-HasLeader now digits args lg h
step-HasLeader _ _ (Step.expire now number lg) h = expire_round-HasLeader now number lg h
step-HasLeader _ _ (Step.sync now args lg) h = sync_group-HasLeader now args lg h
step-HasLeader _ _ (Step.beat now args lg) h = heartbeat-HasLeader now args lg h
step-HasLeader _ _ (Step.leave now id lg) h = leave_group-HasLeader now id lg h
step-HasLeader _ _ (Step.commit topic partition c lg) h = h

-- If a group has no leader or is led by one of its members, then so it is after any sequence of
-- joins, expiries, syncs, heartbeats, leaves and commits.
pub Steps-HasLeader : (lg lg' : LiveGroup) → Steps lg lg' → HasLeader lg → HasLeader lg'
Steps-HasLeader _ _ (Steps.done lg) h = h
Steps-HasLeader a c (Steps.next _ b _ s rest) h = Steps-HasLeader b c rest (step-HasLeader a b s h)
