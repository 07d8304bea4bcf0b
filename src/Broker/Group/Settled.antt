-- ===== src/Broker/Group/Settled.antt =====
-- internal/broker/group.go: what closeRound makes of a round.
use kafka_wire.Prelude.{
  drop, ℕ, ◌≡◌, ◌≢◌, ◌↔◌, subst, refl, ap, ◌∙◌, sym, inl, inr, true, false, not, ◌&&◌, List, [],
  ◌∷◌, map, some, arith, Bool-cases, if◌then◌else◌, ==_iff,
}
use mathlib.Core.List.{Perm}
use kafka_wire.Prelude.Map.{
  same, same_refl, same_eq, same_ne, same-IsEqual, find, has, put, find-put_same, find-put_other,
}
use kafka_wire.Prelude.Select.{first}
use kafka_wire.Prelude.Sort.{sort_by-Perm}
use kafka_wire.Broker.Offsets.{or_else}
use kafka_wire.Broker.Group.{
  LiveGroup, with_round, RebalanceRound, JoinGroupResult, rebalance_in_progress,
}
use kafka_wire.Broker.Group.Protocol.{is_in}
use kafka_wire.Broker.Group.Close.{
  next_generation, no_generation, listed, member_list, result_for, answer_all, drop_absent, settle,
  close_round,
}
use kafka_wire.Broker.Group.Barrier.{join_answer}
use kafka_wire.Broker.Group.Leader.{drop_where-has, choose_leader-has, drop_where-SameBut}

find-answer_all :
    (lg : LiveGroup) (k : List ℕ) (ids : List (List ℕ)) (results : List (List ℕ × JoinGroupResult))
    → find same k (answer_all lg ids results) ≡ (
        if is_in k ids && has same k lg.persisted.members
        then some (result_for lg k)
        else find same k results)
unfolding answer_all is_in
find-answer_all lg k [] results = refl
find-answer_all lg k (id ∷ ids) results = elim (Bool-cases (same id k)) [
  | inr other ↦ elim (Bool-cases (has same id lg.persisted.members)) [
    | inr gone ↦ rw (answer_all, gone, other) (find-answer_all lg k ids results)
    | inl there ↦
        rw (answer_all, there, other)
          (find-answer_all lg k ids (put same id (result_for lg id) results)
            ∙ ap
                (λ o.
                  if is_in k ids && has same k lg.persisted.members
                  then some (result_for lg k)
                  else o)
                (find-put_other same same-IsEqual id k (result_for lg id) results other))
  ]
  | inl here ↦ rw (← same_eq id k here) (elim (Bool-cases (has same id lg.persisted.members)) [
    | inr gone ↦ rw (answer_all, gone) (find-answer_all lg id ids results ∙ ground (arith, gone))
    | inl there ↦
        rw (answer_all, there)
          (find-answer_all lg id ids (put same id (result_for lg id) results)
            ∙ ground (
              arith,
              there,
              same_refl id,
              find-put_same same same-IsEqual id (result_for lg id) results,
            ))
  ])
]

-- The round as it is decided.
abbrev pub decided : ℕ → LiveGroup → RebalanceRound → RebalanceRound
decided now lg r =
    let settled = settle now (drop_absent lg r) in
    record r { closed = true; results = answer_all settled r.joined r.results }

close_round-open :
    (now : ℕ) (lg : LiveGroup) (r : RebalanceRound)
    → r.closed ≡ false
    → close_round now lg r ≡ with_round (settle now (drop_absent lg r)) (decided now lg r)
unfolding close_round
close_round-open now lg r still =
    ap (λ b. if b then lg else with_round (settle now (drop_absent lg r)) (decided now lg r)) still

pub close_round-rounds :
    (now : ℕ) (lg : LiveGroup) (r : RebalanceRound)
    → r.closed ≡ false
    → ((close_round now lg r).rounds ≡ (decided now lg r ∷ drop 1 lg.rounds))
      × ((close_round now lg r).persisted.generation ≡ next_generation lg.persisted.generation)
unfolding settle drop_absent
close_round-rounds now lg r still =
    let dropped = drop_where-SameBut (λ id m. not (is_in id r.joined)) lg.persisted.members lg in
    (
      ap (λ g. g.rounds) (close_round-open now lg r still)
          ∙ ap (λ x. decided now lg r ∷ drop 1 x) dropped.same_rounds,
      ap (λ g. g.persisted.generation) (close_round-open now lg r still)
          ∙ ap next_generation dropped.same_generation,
    )

settle-has :
    (now : ℕ) (lg : LiveGroup) (r : RebalanceRound) (k : List ℕ)
    → has same k (settle now (drop_absent lg r)).persisted.members
      ≡ (has same k lg.persisted.members && is_in k r.joined)
unfolding settle drop_absent
settle-has now lg r k =
    drop_where-has (λ id. not (is_in id r.joined)) k lg.persisted.members lg ∙ ground arith

-- The members after the round: those before it that joined.
pub close_round-has :
    (now : ℕ) (lg : LiveGroup) (r : RebalanceRound) (k : List ℕ)
    → r.closed ≡ false
    → has same k (close_round now lg r).persisted.members
      ≡ (has same k lg.persisted.members && is_in k r.joined)
close_round-has now lg r k still =
    ap (λ g. has same k g.persisted.members) (close_round-open now lg r still)
    ∙ settle-has now lg r k

join_answer-head :
    (lg : LiveGroup) (r : RebalanceRound) (group_id k : List ℕ)
    → r.closed ≡ true
    → join_answer (with_round lg r) group_id r.number k
      ≡ or_else (find same k r.results) (no_generation group_id k rebalance_in_progress)
unfolding join_answer first
join_answer-head lg r group_id k over =
    rw (join_answer, first, (==_iff r.number r.number).1 refl, over) refl

-- When a round closes that is open and has no answers yet, the members are those before it that
-- joined, the generation goes up by one in int32, and the answer to each member is that of the
-- group with its new generation and leader; everyone else who waits is told that a rebalance is in
-- progress.
pub close_round-join_answer :
    (now : ℕ) (lg : LiveGroup) (r : RebalanceRound) (group_id k : List ℕ)
    → r.closed ≡ false
    → r.results ≡ []
    → let lg' = close_round now lg r in
      (has same k lg'.persisted.members ≡ (has same k lg.persisted.members && is_in k r.joined))
      × (lg'.persisted.generation ≡ next_generation lg.persisted.generation)
      × (join_answer lg' group_id r.number k ≡ (
          if has same k lg'.persisted.members
          then result_for lg' k
          else no_generation group_id k rebalance_in_progress))
unfolding result_for find settle drop_absent
close_round-join_answer now lg r group_id k still none_yet = (
  close_round-has now lg r k still,
  (close_round-rounds now lg r still).1,
  ap (λ g. join_answer g group_id r.number k) (close_round-open now lg r still)
      ∙ join_answer-head (settle now (drop_absent lg r)) (decided now lg r) group_id k refl
      ∙ ap (λ o. or_else o (no_generation group_id k rebalance_in_progress))
          (find-answer_all (settle now (drop_absent lg r)) k r.joined r.results)
      ∙ ground (arith, ap (find same k) none_yet, settle-has now lg r k)
      ∙ ap
          (λ g.
            if has same k g.persisted.members
            then result_for g k
            else no_generation group_id k rebalance_in_progress)
          (sym (close_round-open now lg r still)),
)

pub answer_of-member :
    (now : ℕ) (lg : LiveGroup) (r : RebalanceRound) (group_id k : List ℕ)
    → r.closed ≡ false
    → r.results ≡ []
    → has same k (close_round now lg r).persisted.members ≡ true
    → join_answer (close_round now lg r) group_id r.number k ≡ result_for (close_round now lg r) k
answer_of-member now lg r group_id k still none_yet there =
    (close_round-join_answer now lg r group_id k still none_yet).2
    ∙ ap
        (λ b.
          if b
          then result_for (close_round now lg r) k
          else no_generation group_id k rebalance_in_progress)
        there

close_round-leader :
    (now : ℕ) (lg : LiveGroup) (r : RebalanceRound) (k : List ℕ)
    → r.closed ≡ false
    → has same k (close_round now lg r).persisted.members ≡ true
    → has same (close_round now lg r).leader (close_round now lg r).persisted.members ≡ true
unfolding settle
close_round-leader now lg r k still there =
    ap (λ g. has same g.leader g.persisted.members) (close_round-open now lg r still)
    ∙ choose_leader-has k (drop_absent lg r)
        (ap (λ g. has same k g.persisted.members) (sym (close_round-open now lg r still)) ∙ there)

-- A result that is the leader's, with the list of all members, or a follower's, with none.
abbrev pub IsLed : LiveGroup → List ℕ → JoinGroupResult → Type 0
IsLed lg k res =
    (res.leader_id ≡ lg.leader)
    × ((res.is_leader ≡ true) ↔ (k ≡ lg.leader))
    × (k ≡ lg.leader → Perm res.members (map (λ e. listed e.1) lg.persisted.members))
    × (k ≢ lg.leader → res.members ≡ [])

result_for-IsLed : (lg : LiveGroup) (k : List ℕ) → IsLed lg k (result_for lg k)
unfolding result_for member_list
result_for-IsLed lg k = (
  refl,
  (same_eq k lg.leader, λ h. ap (λ x. same x lg.leader) h ∙ same_refl lg.leader),
  λ h.
      rw (ap (λ x. same x lg.leader) h ∙ same_refl lg.leader)
        (sort_by-Perm _ (map (λ e. listed e.1) lg.persisted.members)),
  λ h. rw (same_ne k lg.leader h) refl,
)

-- When a round closes that is open, has no answers yet and has been joined by a member, the group
-- has one leader: a member of the new generation, whom the answers of the members name; its own
-- answer lists the members, in some order, and the answers of the others say that they do not lead
-- and list nobody.
pub close_round-IsLed :
    (now : ℕ) (lg : LiveGroup) (r : RebalanceRound) (group_id k : List ℕ)
    → r.closed ≡ false
    → r.results ≡ []
    → has same k lg.persisted.members ≡ true
    → is_in k r.joined ≡ true
    → let lg' = close_round now lg r in
      (has same lg'.leader lg'.persisted.members ≡ true)
      × IsLed lg' k (join_answer lg' group_id r.number k)
      × IsLed lg' lg'.leader (join_answer lg' group_id r.number lg'.leader)
close_round-IsLed now lg r group_id k still none_yet there came =
    let lg' = close_round now lg r in
    let stays : has same k lg'.persisted.members ≡ true =
      close_round-has now lg r k still ∙ ground (arith, there, came) in
    let led = close_round-leader now lg r k still stays in
    (
      led,
      subst (IsLed lg' k) (sym (answer_of-member now lg r group_id k still none_yet stays))
          (result_for-IsLed lg' k),
      subst (IsLed lg' lg'.leader)
          (sym (answer_of-member now lg r group_id lg'.leader still none_yet led))
          (result_for-IsLed lg' lg'.leader),
    )
