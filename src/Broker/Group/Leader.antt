-- ===== src/Broker/Group/Leader.antt =====
-- internal/broker/group.go: what dropping members and choosing a leader come to.
use kafka_wire.Prelude.{
  ℕ, ◌≡◌, refl, ap, ◌∙◌, sym, inl, inr, Bool, true, false, not, ◌&&◌, ◌||◌, List, [], ◌∷◌, arith,
  Bool-cases,
}
use kafka_wire.Prelude.Map.{same, same_refl, same_eq, same-IsEqual, find, has, has-remove}
use kafka_wire.Prelude.Sort.{less, insert_by, sort_by}
use kafka_wire.Broker.Offsets.{MemberState}
use kafka_wire.Broker.Group.{LiveGroup}
use kafka_wire.Broker.Group.Members.{Members, ids_of, pick_leader, drop_member, drop_where}
use kafka_wire.Broker.Group.Protocol.{is_in}
use kafka_wire.Broker.Group.Close.{choose_leader}

has-is_in : (k : List ℕ) (ms : Members) → has same k ms ≡ is_in k (ids_of ms)
unfolding has find is_in
has-is_in k [] = refl
has-is_in k ((id, m) ∷ ms) = ground (arith, has-is_in k ms)

is_in-insert :
    (k x : List ℕ) (xs : List (List ℕ)) → is_in k (insert_by less x xs) ≡ (same x k || is_in k xs)
unfolding is_in insert_by
is_in-insert k x [] = refl
is_in-insert k x (y ∷ ys) = ground (arith, is_in-insert k x ys)

is_in-sort : (k : List ℕ) (xs : List (List ℕ)) → is_in k (sort_by less xs) ≡ is_in k xs
unfolding is_in sort_by
is_in-sort k [] = refl
is_in-sort k (x ∷ xs) = ground (arith, is_in-insert k x (sort_by less xs), is_in-sort k xs)

head_or : List (List ℕ) → List ℕ
head_or [] = []
head_or (x ∷ xs) = x

is_in-head : (k : List ℕ) (xs : List (List ℕ)) → is_in k xs ≡ true → is_in (head_or xs) xs ≡ true
unfolding is_in head_or
is_in-head k [] h = absurd cc
is_in-head k (x ∷ xs) h = ground (arith, same_refl x)

pick-head_or : (ms : Members) → pick_leader ms ≡ head_or (sort_by less (ids_of ms))
unfolding pick_leader head_or
pick-head_or ms = refl

-- Who is picked is a member, if there is any.
pub pick_leader-has :
    (k : List ℕ) (ms : Members) → has same k ms ≡ true → has same (pick_leader ms) ms ≡ true
pick_leader-has k ms h =
    let ids = ids_of ms in
    let there : is_in k (sort_by less ids) ≡ true = is_in-sort k ids ∙ sym (has-is_in k ms) ∙ h in
    has-is_in (pick_leader ms) ms
    ∙ sym (is_in-sort (pick_leader ms) ids)
    ∙ ap (λ x. is_in x (sort_by less ids)) (pick-head_or ms)
    ∙ is_in-head k (sort_by less ids) there

pub choose_leader-has :
    (k : List ℕ) (lg : LiveGroup)
    → has same k lg.persisted.members ≡ true
    → has same (choose_leader lg) lg.persisted.members ≡ true
unfolding choose_leader
choose_leader-has k lg h = ground (arith, pick_leader-has k lg.persisted.members h)

pub has-cons :
    (k id : List ℕ) (m : MemberState) (ms : Members)
    → has same k ((id, m) ∷ ms) ≡ (same id k || has same k ms)
unfolding has find
has-cons k id m ms = ground arith

same-ap : (p : List ℕ → Bool) (id k : List ℕ) → same id k ≡ true → p id ≡ p k
same-ap p id k h = ap p (same_eq id k h)

pub has-nil : (k : List ℕ) → has {V = MemberState} same k [] ≡ false
unfolding has find
has-nil k = refl

pub drop_member-has :
    (k id : List ℕ) (lg : LiveGroup)
    → has same k (drop_member id lg).persisted.members
      ≡ (has same k lg.persisted.members && not (same id k))
unfolding drop_member
drop_member-has k id lg = has-remove same same-IsEqual id k lg.persisted.members

-- A loop that drops by name leaves the others.
pub drop_where-has :
    (p : List ℕ → Bool) (k : List ℕ) (ms : Members) (lg : LiveGroup)
    → has same k (drop_where (λ id m. p id) ms lg).persisted.members
      ≡ (has same k lg.persisted.members && not (has same k ms && p k))
unfolding drop_where
drop_where-has p k [] lg = ground (arith, has-nil k)
drop_where-has p k ((id, m) ∷ ms) lg = elim (Bool-cases (p id)) [
  | inr stays ↦
      rw (drop_where, stays, has-cons)
        (drop_where-has p k ms lg ∙ ground (arith, stays, same-ap p id k))
  | inl goes ↦
      rw (drop_where, goes, has-cons)
        (drop_where-has p k ms (drop_member id lg)
          ∙ ground (arith, goes, drop_member-has k id lg, same-ap p id k))
]

-- What dropping members leaves alone.
pub record SameBut (lg lg' : LiveGroup) : Type 0 where
  pub same_id : lg'.id ≡ lg.id
  pub same_state : lg'.state ≡ lg.state
  pub same_generation : lg'.persisted.generation ≡ lg.persisted.generation
  pub same_offsets : lg'.persisted.offsets ≡ lg.persisted.offsets
  pub same_rounds : lg'.rounds ≡ lg.rounds

pub SameBut-refl : (lg : LiveGroup) → SameBut lg lg
SameBut-refl lg = record {
  same_id = refl;
  same_state = refl;
  same_generation = refl;
  same_offsets = refl;
  same_rounds = refl;
}

drop_member-SameBut : (id : List ℕ) (lg : LiveGroup) → SameBut lg (drop_member id lg)
unfolding drop_member
drop_member-SameBut id lg = record {
  same_id = refl;
  same_state = refl;
  same_generation = refl;
  same_offsets = refl;
  same_rounds = refl;
}

pub SameBut-trans : {a b c : LiveGroup} → SameBut a b → SameBut b c → SameBut a c
SameBut-trans p q = record {
  same_id = q.same_id ∙ p.same_id;
  same_state = q.same_state ∙ p.same_state;
  same_generation = q.same_generation ∙ p.same_generation;
  same_offsets = q.same_offsets ∙ p.same_offsets;
  same_rounds = q.same_rounds ∙ p.same_rounds;
}

pub drop_where-SameBut :
    (q : List ℕ → MemberState → Bool) (ms : Members) (lg : LiveGroup)
    → SameBut lg (drop_where q ms lg)
unfolding drop_where
drop_where-SameBut q [] lg = SameBut-refl lg
drop_where-SameBut q ((id, m) ∷ ms) lg = elim (Bool-cases (q id m)) [
  | inl e ↦
      rw e (SameBut-trans (drop_member-SameBut id lg) (drop_where-SameBut q ms (drop_member id lg)))
  | inr e ↦ rw e (drop_where-SameBut q ms lg)
]
