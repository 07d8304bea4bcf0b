-- ===== src/Broker/Group/Leads.antt =====
-- internal/broker/group.go: a leader that is a member, through the changes of the members.
use kafka_wire.Prelude.{
  ℕ, ◌≡◌, refl, ◌∙◌, ◌⊎◌, inl, inr, Bool, true, false, List, [], ◌∷◌, arith, Bool-cases, if-both,
  if◌then◌else◌,
}
use kafka_wire.Prelude.Map.{same, same_refl, same-IsEqual, has, put, has-put, remove, has-remove}
use kafka_wire.Prelude.Sort.{sort_by}
use kafka_wire.Broker.Offsets.{MemberState}
use kafka_wire.Broker.Group.{LiveGroup, RebalanceRound}
use kafka_wire.Broker.Group.Members.{Members, pick_leader, drop_member, drop_where}
use kafka_wire.Broker.Group.Close.{choose_leader, drop_absent, settle, close_round}
use kafka_wire.Broker.Group.Sync.{assign}
use kafka_wire.Broker.Group.Leader.{has-cons, pick_leader-has}
use kafka_wire.Broker.Group.Delivery.{find-assign}

-- Nobody leads, or a member does.
unfoldable pub LeadsIn : List ℕ → Members → Type 0
LeadsIn leader ms = (leader ≡ []) ⊎ (has same leader ms ≡ true)

abbrev pub HasLeader : LiveGroup → Type 0
HasLeader lg = LeadsIn lg.leader lg.persisted.members

pick_leader-LeadsIn : (ms : Members) → LeadsIn (pick_leader ms) ms
unfolding LeadsIn pick_leader sort_by
pick_leader-LeadsIn [] = inl refl
pick_leader-LeadsIn ((id, m) ∷ ms) =
    inr (pick_leader-has id ((id, m) ∷ ms) (has-cons id id m ms ∙ ground (arith, same_refl id)))

pub put-LeadsIn :
    (leader id : List ℕ) (m : MemberState) (ms : Members)
    → LeadsIn leader ms
    → LeadsIn leader (put same id m ms)
unfolding LeadsIn
put-LeadsIn leader id m ms (inl e) = inl e
put-LeadsIn leader id m ms (inr e) =
    inr (has-put same same-IsEqual id leader m ms ∙ ground (arith, e))

pub assign-LeadsIn :
    (given : List (List ℕ × List ℕ)) (leader : List ℕ) (ms : Members)
    → LeadsIn leader ms
    → LeadsIn leader (assign given ms)
unfolding LeadsIn has
assign-LeadsIn given leader ms (inl e) = inl e
assign-LeadsIn given leader ms (inr e) = inr (ground (arith, e, find-assign given leader ms))

same_sym : (x y : List ℕ) → same x y ≡ same y x
unfolding same
same_sym [] [] = refl
same_sym [] (y ∷ ys) = refl
same_sym (x ∷ xs) [] = refl
same_sym (x ∷ xs) (y ∷ ys) = ground (arith, same_sym xs ys)

-- Of a leader that goes nothing is left.
remove-LeadsIn :
    (leader id : List ℕ) (ms : Members)
    → LeadsIn leader ms
    → LeadsIn (if same leader id then [] else leader) (remove same id ms)
unfolding LeadsIn
remove-LeadsIn leader id ms h = elim (Bool-cases (same leader id)) [
  | inl e ↦ rw e (inl refl)
  | inr e ↦ elim h [
    | inl p ↦ rw e (inl p)
    | inr p ↦
        rw e (
          inr
            (has-remove same same-IsEqual id leader ms ∙ ground (arith, p, e, same_sym leader id)))
  ]
]

pub leave-LeadsIn :
    (leader id : List ℕ) (ms : Members)
    → LeadsIn leader ms
    → LeadsIn
        (if same leader id then pick_leader (remove same id ms) else leader)
        (remove same id ms)
leave-LeadsIn leader id ms h = elim (Bool-cases (same leader id)) [
  | inl e ↦ rw e (pick_leader-LeadsIn (remove same id ms))
  | inr e ↦ rw e (rw e at (remove-LeadsIn leader id ms h))
]

drop_member-HasLeader :
    (id : List ℕ) (lg : LiveGroup) → HasLeader lg → HasLeader (drop_member id lg)
unfolding drop_member
drop_member-HasLeader id lg h = remove-LeadsIn lg.leader id lg.persisted.members h

pub drop_where-HasLeader :
    (q : List ℕ → MemberState → Bool) (ms : Members) (lg : LiveGroup)
    → HasLeader lg
    → HasLeader (drop_where q ms lg)
unfolding drop_where
drop_where-HasLeader q [] lg h = h
drop_where-HasLeader q ((id, m) ∷ ms) lg h =
    drop_where-HasLeader q ms (if q id m then drop_member id lg else lg)
      (if-both HasLeader (q id m) (drop_member id lg) lg (drop_member-HasLeader id lg h) h)

known_or_picked :
    (leader : List ℕ) (ms : Members) (b : Bool)
    → has same leader ms ≡ b
    → LeadsIn (if b then leader else pick_leader ms) ms
unfolding LeadsIn
known_or_picked leader ms true h = inr h
known_or_picked leader ms false h = pick_leader-LeadsIn ms

choose_leader-LeadsIn : (lg : LiveGroup) → LeadsIn (choose_leader lg) lg.persisted.members
unfolding choose_leader
choose_leader-LeadsIn lg =
    let ms = lg.persisted.members in
    if-both (λ l. LeadsIn l ms) (same lg.leader []) _ _ (pick_leader-LeadsIn ms)
      (known_or_picked lg.leader ms (has same lg.leader ms) refl)

pub close_round-HasLeader :
    (now : ℕ) (lg : LiveGroup) (r : RebalanceRound)
    → HasLeader lg
    → HasLeader (close_round now lg r)
unfolding close_round settle
close_round-HasLeader now lg r h =
    if-both HasLeader r.closed lg _ h (choose_leader-LeadsIn (drop_absent lg r))
