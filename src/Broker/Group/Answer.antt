-- ===== src/Broker/Group/Answer.antt =====
-- internal/broker/group.go: JoinGroup is answered once its round is over.
use kafka_wire.Prelude.{
  leb, if-both, ℕ, ◌≡◌, refl, ◌∙◌, sym, Bool, true, false, ◌&&◌, List, [], ◌∷◌, drop, length, ltb,
  arith, if◌then◌else◌, subst, ◌==◌, ==_iff,
}
use kafka_wire.Prelude.Int.{ℤ}
use kafka_wire.Prelude.Map.{same, same_refl, same-IsEqual, has, has-put}
use kafka_wire.Broker.Group.{
  member_id_required, LiveGroup, RebalanceRound, JoinGroupArgs, JoinGroupResult, Reply, with_round,
}
use kafka_wire.Broker.Group.Reply.{answered, waiting}
use kafka_wire.Broker.Group.Protocol.{is_in}
use kafka_wire.Broker.Group.Close.{no_generation, next_generation, close_round, result_for}
use kafka_wire.Broker.Group.Barrier.{
  all_rejoined, open_round, enter, join_round, register, join_group, expire_round, join_answer,
  member_of,
}
use kafka_wire.Broker.Group.Settled.{decided, close_round-rounds, answer_of-member, close_round-has}
use kafka_wire.Broker.Group.Steps.{evict_expired-SameBut, evict_client-SameBut}
use kafka_wire.Broker.Group.Leader.{SameBut, SameBut-trans}
use kafka_wire.Broker.Group.Members.{evict_expired, evict_client, new_member_id}
use kafka_wire.Broker.Group.Rounds.{IsOrdered, IsOpened, open_round-IsOpened, close_round-closed}

-- The member is in the round, and in the group.
join_round-is_in : (id : List ℕ) (r : RebalanceRound) → is_in id (join_round id r).joined ≡ true
unfolding join_round is_in
join_round-is_in id r = ground (arith, same_refl id)

enter-has :
    (now : ℕ) (id : List ℕ) (args : JoinGroupArgs) (lg : LiveGroup)
    → has same id (enter now id args lg).persisted.members ≡ true
unfolding enter
enter-has now id args lg =
    has-put same same-IsEqual id id _ lg.persisted.members ∙ ground (arith, same_refl id)

-- The deadline of the current round, still open or decided before.
expire-head :
    (now : ℕ) (lg : LiveGroup) (r : RebalanceRound)
    → expire_round now r.number (with_round lg r) ≡ close_round now (with_round lg r) r
unfolding expire_round
expire-head now lg r = rw (expire_round, (==_iff r.number r.number).1 refl) refl

expire-over :
    (now n : ℕ) (lg : LiveGroup) (r : RebalanceRound) (rs : List RebalanceRound)
    → lg.rounds ≡ (r ∷ rs)
    → r.closed ≡ true
    → expire_round now n lg ≡ lg
unfolding expire_round
expire-over now n lg r rs head over =
    subst (λ xs. expire_round now n (record lg { rounds = xs }) ≡ record lg { rounds = xs })
      (sym head)
      (let g = record lg { rounds = r ∷ rs } in
        if-both (λ x. x ≡ g) (r.number == n) (close_round now g r) g
          (close_round-closed now lg r rs over) refl)

module _ (now later : ℕ) (lg : LiveGroup) (r : RebalanceRound) (still : r.closed ≡ false) where
  -- The deadline after the member has been entered: the round is closed now, or then.
  expire-registered :
      (full : Bool)
      → (t : ℕ) × (expire_round later r.number
            (if full then close_round now (with_round lg r) r else with_round lg r)
          ≡ close_round t (with_round lg r) r)
  expire-registered true = (
    now,
    expire-over later r.number (close_round now (with_round lg r) r)
        (decided now (with_round lg r) r) (drop 1 lg.rounds)
        (close_round-rounds now (with_round lg r) r still).0 refl,
  )
  expire-registered false = (later, expire-head later lg r)

-- A round that a member has just been entered in, closed at some time.
abbrev IsAnswered : List ℕ → ℤ → List ℕ → ℕ → LiveGroup → Type 0
IsAnswered id generation group_id n lg =
    (join_answer lg group_id n id ≡ result_for lg id)
    × (has same id lg.persisted.members ≡ true)
    × (lg.persisted.generation ≡ next_generation generation)

close_round-IsAnswered :
    (t : ℕ) (lg : LiveGroup) (r : RebalanceRound) (group_id id : List ℕ)
    → r.closed ≡ false
    → r.results ≡ []
    → has same id lg.persisted.members ≡ true
    → is_in id r.joined ≡ true
    → IsAnswered id lg.persisted.generation group_id r.number (close_round t lg r)
close_round-IsAnswered t lg r group_id id still none_yet there came =
    let stays : has same id (close_round t lg r).persisted.members ≡ true =
      close_round-has t lg r id still ∙ ground (arith, there, came) in
    (
      answer_of-member t lg r group_id id still none_yet stays,
      stays,
      (close_round-rounds t lg r still).1,
    )

opened-IsAnswered :
    (now later : ℕ) (id group_id : List ℕ) (args : JoinGroupArgs) (lg : LiveGroup)
    (o : LiveGroup × RebalanceRound) (full : Bool)
    → IsOpened lg o
    → let r = join_round id o.1 in
      let g = with_round (enter now id args o.0) r in
      IsAnswered id lg.persisted.generation group_id r.number
        (expire_round later r.number (if full then close_round now g r else g))
unfolding enter join_round IsOrdered
opened-IsAnswered now later id group_id args lg (g, r) full (head, still, h, quiet) =
    let r' = join_round id r in
    let entered = enter now id args g in
    let (t, e) = expire-registered now later entered r' still full in
    subst (IsAnswered id lg.persisted.generation group_id r.number) (sym e) (
      subst (λ x. IsAnswered id x group_id r.number (close_round t (with_round entered r') r'))
        quiet.0
        (close_round-IsAnswered t (with_round entered r') r' group_id id still
          ((subst IsOrdered head h).1 still) (enter-has now id args g) (join_round-is_in id r)))

register-IsAnswered :
    (now later : ℕ) (id group_id : List ℕ) (args : JoinGroupArgs) (lg : LiveGroup) (n : ℕ)
    → IsOrdered lg.rounds
    → (register now id args lg).1 ≡ waiting n
    → IsAnswered id lg.persisted.generation group_id n
        (expire_round later n (register now id args lg).0)
unfolding register
register-IsAnswered now later id group_id args lg n h w =
    let r = join_round id (open_round now args lg).1 in
    let e : r.number ≡ n = cc w in
    subst
      (λ k.
        IsAnswered id lg.persisted.generation group_id k
          (expire_round later k (register now id args lg).0))
      e
      (opened-IsAnswered now later id group_id args lg (open_round now args lg)
        (ltb 0 (length r.expected) && all_rejoined r r.expected)
        (open_round-IsOpened now args lg lg.rounds h))

-- The same for a group that has lost members before.
after_drop-IsAnswered :
    (now later : ℕ) (id group_id : List ℕ) (args : JoinGroupArgs) (lg lg' : LiveGroup) (n : ℕ)
    → SameBut lg lg'
    → IsOrdered lg.rounds
    → (register now id args lg').1 ≡ waiting n
    → IsAnswered id lg.persisted.generation group_id n
        (expire_round later n (register now id args lg').0)
after_drop-IsAnswered now later id group_id args lg lg' n s h w =
    subst (λ g. IsAnswered id g group_id n (expire_round later n (register now id args lg').0))
      s.same_generation
      (register-IsAnswered now later id group_id args lg' n (subst IsOrdered (sym s.same_rounds) h)
        w)

-- A reply that waits comes with a group in which the member is answered.
abbrev WaitsWell : ℕ → ℕ → List ℕ → LiveGroup → LiveGroup × Reply JoinGroupResult → List ℕ → Type 0
WaitsWell later n group_id lg (g, reply) id =
    reply ≡ waiting n → IsAnswered id lg.persisted.generation group_id n (expire_round later n g)

branches :
    (later n : ℕ) (group_id : List ℕ) (lg : LiveGroup) (b c : Bool)
    (x y z : LiveGroup × Reply JoinGroupResult) (i j : List ℕ)
    → WaitsWell later n group_id lg x i
    → WaitsWell later n group_id lg y i
    → WaitsWell later n group_id lg z j
    → WaitsWell later n group_id lg (if b then if c then x else y else z) (if b then i else j)
branches later n group_id lg true true x y z i j p q r = p
branches later n group_id lg true false x y z i j p q r = q
branches later n group_id lg false c x y z i j p q r = r

-- In a group whose rounds are in order, a JoinGroup that waits is answered when the deadline of its
-- round follows, at any time, whether the join itself closed the round or not: the member is in the
-- group then, the generation is the next one, and the answer is that of the group.
pub join_group-answered :
    (now later : ℕ) (digits : List ℕ) (args : JoinGroupArgs) (lg : LiveGroup) (n : ℕ)
    → IsOrdered lg.rounds
    → (join_group now digits args lg).1 ≡ waiting n
    → let lg' = expire_round later n (join_group now digits args lg).0 in
      let id = member_of digits args in
      (join_answer lg' args.group_id n id ≡ result_for lg' id)
      × (has same id lg'.persisted.members ≡ true)
      × (lg'.persisted.generation ≡ next_generation lg.persisted.generation)
unfolding join_group
join_group-answered now later digits args lg n h =
    let swept = evict_expired now lg in
    let alone = evict_client args.client_id swept in
    let fresh = new_member_id args.client_id digits in
    let first = evict_expired-SameBut now lg in
    let both = SameBut-trans first (evict_client-SameBut args.client_id swept) in
    branches later n args.group_id lg (same args.member_id []) (leb 4 args.api_version)
      (
        alone,
        answered
            (record (no_generation args.group_id fresh member_id_required) { need_rejoin = true }),
      )
      (register now fresh args alone) (register now args.member_id args swept) fresh args.member_id
      (λ w. absurd cc) (after_drop-IsAnswered now later fresh args.group_id args lg alone n both h)
      (after_drop-IsAnswered now later args.member_id args.group_id args lg swept n first h)
