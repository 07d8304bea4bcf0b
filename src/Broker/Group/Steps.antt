-- ===== src/Broker/Group/Steps.antt =====
-- internal/broker/group.go: the operations on a group as steps, in any order and at any times.
use kafka_wire.Prelude.{
  leb, if-both, option-both, ℕ, zero, suc, ◌+◌, ◌≡◌, refl, ap, ◌∙◌, sym, inl, inr, List, [], ◌∷◌,
  arith, subst,
}
use kafka_wire.Prelude.Int.{ℤ, eqb_ℤ}
use kafka_wire.Prelude.Map.{same, find, put}
use kafka_wire.Broker.Offsets.{CommittedOffset, set_offset}
use kafka_wire.Broker.Group.{
  LiveGroup, Reply, SyncGroupResult, RebalanceRound, JoinGroupArgs, JoinGroupResult, SyncGroupArgs,
  HeartbeatArgs, current_round,
}
use kafka_wire.Broker.Group.Members.{evict_expired, evict_client, new_member_id}
use kafka_wire.Broker.Group.Close.{next_generation}
use kafka_wire.Broker.Group.Barrier.{register, join_group, expire_round}
use kafka_wire.Broker.Group.Sync.{distribute, sync_group, heartbeat, leave_group}
use kafka_wire.Broker.Group.Leader.{drop_where-SameBut, SameBut, SameBut-refl, SameBut-trans}
use kafka_wire.Broker.Group.Rounds.{
  IsOrdered, closed_rounds, IsGood, still-IsGood, IsGood-after, register-IsGood,
  expire_round-IsGood,
}

-- One operation on the group. A commit of an offset changes it through the store.
pub data Step : LiveGroup → LiveGroup → Type 0 where
  join :
      (now : ℕ) (digits : List ℕ) (args : JoinGroupArgs) (lg : LiveGroup)
      → Step lg (join_group now digits args lg).0
  expire : (now number : ℕ) (lg : LiveGroup) → Step lg (expire_round now number lg)
  sync : (now : ℕ) (args : SyncGroupArgs) (lg : LiveGroup) → Step lg (sync_group now args lg).0
  beat : (now : ℕ) (args : HeartbeatArgs) (lg : LiveGroup) → Step lg (heartbeat now args lg).0
  leave : (now : ℕ) (id : List ℕ) (lg : LiveGroup) → Step lg (leave_group now id lg).0
  commit :
      (topic : List ℕ) (partition : ℤ) (c : CommittedOffset) (lg : LiveGroup)
      → Step lg (record lg { persisted = set_offset lg.persisted topic partition c })

pub data Steps : LiveGroup → LiveGroup → Type 0 where
  done : (lg : LiveGroup) → Steps lg lg
  next : (a b c : LiveGroup) → Step a b → Steps b c → Steps a c

pub evict_expired-SameBut : (now : ℕ) (lg : LiveGroup) → SameBut lg (evict_expired now lg)
unfolding evict_expired
evict_expired-SameBut now lg = drop_where-SameBut _ lg.persisted.members lg

pub evict_client-SameBut :
    (client_id : List ℕ) (lg : LiveGroup) → SameBut lg (evict_client client_id lg)
unfolding evict_client
evict_client-SameBut client_id lg =
    if-both (SameBut lg) (same client_id []) lg _ (SameBut-refl lg)
      (drop_where-SameBut (λ id m. same m.client_id client_id) lg.persisted.members lg)

-- A group that has lost members is good, and so is one that then takes a member in.
after_drop :
    (lg lg' : LiveGroup)
    → SameBut lg lg'
    → IsOrdered lg.rounds
    → IsGood lg lg'
      × ((id : List ℕ) (args : JoinGroupArgs) (now : ℕ) → IsGood lg (register now id args lg').0)
after_drop lg lg' s h = (
  still-IsGood lg lg' h s.same_rounds s.same_generation,
  λ id args now.
      IsGood-after lg lg' (register now id args lg').0
        (s.same_generation, ap closed_rounds s.same_rounds)
        (register-IsGood now id args lg' (subst IsOrdered (sym s.same_rounds) h)),
)

join_group-IsGood :
    (now : ℕ) (digits : List ℕ) (args : JoinGroupArgs) (lg : LiveGroup)
    → IsOrdered lg.rounds
    → IsGood lg (join_group now digits args lg).0
unfolding join_group
join_group-IsGood now digits args lg h =
    let swept = evict_expired now lg in
    let alone = evict_client args.client_id swept in
    let first = evict_expired-SameBut now lg in
    let P = λ (g : LiveGroup × Reply JoinGroupResult). IsGood lg g.0 in
    let both = SameBut-trans first (evict_client-SameBut args.client_id swept) in
    if-both P (same args.member_id []) _ _
      (if-both P (leb 4 args.api_version) _ _ (after_drop lg alone both h).0
        ((after_drop lg alone both h).1 (new_member_id args.client_id digits) args now))
      ((after_drop lg swept first h).1 args.member_id args now)

same-IsGood : (lg : LiveGroup) → IsOrdered lg.rounds → IsGood lg lg
same-IsGood lg h = (h, inl (refl, refl))

distribute-IsGood :
    (now : ℕ) (assignments : List (List ℕ × List ℕ)) (lg : LiveGroup) (rs : List RebalanceRound)
    → IsOrdered rs
    → IsGood (record lg { rounds = rs }) (distribute now assignments (record lg { rounds = rs }))
unfolding distribute IsOrdered closed_rounds
distribute-IsGood now assignments lg [] h = (h, inl (refl, refl))
distribute-IsGood now assignments lg (r ∷ rs) h = (h, inl (refl, refl))

sync_group-IsGood :
    (now : ℕ) (args : SyncGroupArgs) (lg : LiveGroup)
    → IsOrdered lg.rounds
    → IsGood lg (sync_group now args lg).0
unfolding sync_group
sync_group-IsGood now args lg h =
    let beaten = record lg { heartbeats = put same args.member_id now lg.heartbeats } in
    let P = λ (g : LiveGroup × Reply SyncGroupResult). IsGood lg g.0 in
    if-both P (eqb_ℤ lg.persisted.generation args.generation) _ _
      (option-both P (find same args.member_id lg.persisted.members) _ _ (same-IsGood lg h) λ m.
        if-both P (same args.member_id lg.leader) _ _
          (distribute-IsGood now args.assignments beaten lg.rounds h)
          (option-both P (current_round lg) _ _ (same-IsGood lg h)
            λ r. if-both P r.synced _ _ (same-IsGood lg h) (same-IsGood lg h)))
      (same-IsGood lg h)

heartbeat-IsGood :
    (now : ℕ) (args : HeartbeatArgs) (lg : LiveGroup)
    → IsOrdered lg.rounds
    → IsGood lg (heartbeat now args lg).0
unfolding heartbeat
heartbeat-IsGood now args lg h =
    let P = λ (g : LiveGroup × ℕ). IsGood lg g.0 in
    if-both P (eqb_ℤ lg.persisted.generation args.generation) _ _
      (option-both P (find same args.member_id lg.persisted.members) _ _ (same-IsGood lg h)
        λ m. same-IsGood lg h)
      (same-IsGood lg h)

leave_group-IsGood :
    (now : ℕ) (id : List ℕ) (lg : LiveGroup)
    → IsOrdered lg.rounds
    → IsGood lg (leave_group now id lg).0
unfolding leave_group
leave_group-IsGood now id lg h =
    let P = λ (g : LiveGroup × ℕ). IsGood lg g.0 in
    option-both P (find same id lg.persisted.members) _ _ (same-IsGood lg h) λ m. same-IsGood lg h

expire-IsGood :
    (now number : ℕ) (lg : LiveGroup) (rs : List RebalanceRound)
    → IsOrdered rs
    → IsGood (record lg { rounds = rs }) (expire_round now number (record lg { rounds = rs }))
unfolding expire_round
expire-IsGood now number lg [] h =
    still-IsGood (record lg { rounds = [] }) (record lg { rounds = [] }) h refl refl
expire-IsGood now number lg (r ∷ rs) h = expire_round-IsGood now lg r rs number h

-- Every step keeps the rounds in order, and moves the generation exactly when it closes a round.
pub step-IsGood : (lg lg' : LiveGroup) → Step lg lg' → IsOrdered lg.rounds → IsGood lg lg'
unfolding set_offset
step-IsGood _ _ (Step.join now digits args lg) h = join_group-IsGood now digits args lg h
step-IsGood _ _ (Step.expire now number lg) h = expire-IsGood now number lg lg.rounds h
step-IsGood _ _ (Step.sync now args lg) h = sync_group-IsGood now args lg h
step-IsGood _ _ (Step.beat now args lg) h = heartbeat-IsGood now args lg h
step-IsGood _ _ (Step.leave now id lg) h = leave_group-IsGood now id lg h
step-IsGood _ _ (Step.commit topic partition c lg) h =
    still-IsGood lg (record lg { persisted = set_offset lg.persisted topic partition c }) h refl
      refl

-- The generation after so many rounds more.
unfoldable pub advance : ℕ → ℤ → ℤ
advance zero g = g
advance (suc n) g = advance n (next_generation g)

-- Start from a group whose rounds are numbered in their order, of which only the newest may be
-- open, without answers as long as it is. Over any sequence of joins, expiries, syncs, heartbeats,
-- leaves and commits of offsets, at any times, the rounds stay so, and the generation goes up, in
-- int32, by exactly one for each round that closes.
pub generation_counts :
    (lg lg' : LiveGroup)
    → Steps lg lg'
    → IsOrdered lg.rounds
    → IsOrdered lg'.rounds
      × ((n : ℕ) × (lg'.persisted.generation ≡ advance n lg.persisted.generation)
          × (closed_rounds lg'.rounds ≡ n + closed_rounds lg.rounds))
unfolding advance
generation_counts _ _ (Steps.done lg) h = (h, (0, refl, omega arith))
generation_counts a c (Steps.next _ b _ s rest) h =
    let (h', move) = step-IsGood a b s h in
    let (h'', (n, g, k)) = generation_counts b c rest h' in
    elim move [
      | inl (e, m) ↦ (h'', (n, g ∙ ap (advance n) e, k ∙ ap (λ x. n + x) m))
      | inr (e, m) ↦ (h'', (suc n, g ∙ ap (advance n) e, omega (arith, k, m)))
    ]
