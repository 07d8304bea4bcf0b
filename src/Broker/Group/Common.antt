-- ===== src/Broker/Group/Common.antt =====
-- internal/broker/group.go: the protocol that is chosen is one that every member supports, if there is one.
use kafka_wire.Prelude.{
  if-both, subst, ℕ, suc, ◌+◌, ◌<◌, ◌≤◌, ◌≡◌, refl, ap, ◌∙◌, sym, inl, inr, Bool, true, false, not,
  ◌&&◌, ◌||◌, List, [], ◌∷◌, ◌++◌, some, length, All, arith, Bool-cases, if◌then◌else◌, ◌==◌,
  ==_iff,
}
use kafka_wire.Prelude.Map.{
  same, same_refl, same_eq, same-IsEqual, find, find-put_same, find-put_other,
}
use kafka_wire.Prelude.Select.{first}
use kafka_wire.Broker.Offsets.{or_else}
use kafka_wire.Broker.Group.{LiveGroup}
use kafka_wire.Broker.Group.Members.{Members}
use kafka_wire.Broker.Group.Protocol.{
  is_in, Tally, count_of, add_name, add_names, tally, no_names, pick_common_protocol, fallback,
}

-- How many members advertise the protocol.
supporters : List ℕ → Members → ℕ
supporters k [] = 0
supporters k ((id, m) ∷ ms) = if is_in k m.protocols then suc (supporters k ms) else supporters k ms

count_of-add_name :
    (k name : List ℕ) (t : Tally)
    → count_of k (add_name name t) ≡ (if same name k then count_of k t + 1 else count_of k t)
unfolding count_of add_name
count_of-add_name k name t = elim (Bool-cases (same name k)) [
  | inl e ↦ rw (← same_eq name k e) (
      ground (
        arith,
        same_refl name,
        find-put_same same same-IsEqual name (or_else (find same name t.counts) 0 + 1) t.counts,
      ))
  | inr e ↦ ground (
    arith,
    e,
    find-put_other same same-IsEqual name k (or_else (find same name t.counts) 0 + 1) t.counts e,
  )
]

is_in-same : (a k : List ℕ) (xs : List (List ℕ)) → same a k ≡ true → is_in a xs ≡ is_in k xs
is_in-same a k xs h = ap (λ x. is_in x xs) (same_eq a k h)

count_of-add_names :
    (k : List ℕ) (seen names : List (List ℕ)) (t : Tally)
    → count_of k (add_names seen names t)
      ≡ (if is_in k names && not (is_in k seen) then count_of k t + 1 else count_of k t)
unfolding add_names is_in
count_of-add_names k seen [] t = refl
count_of-add_names k seen (name ∷ names) t = elim (Bool-cases (is_in name seen)) [
  | inl old ↦
      rw (add_names, old)
        (count_of-add_names k seen names t ∙ ground (arith, old, is_in-same name k seen))
  | inr new ↦
      rw (add_names, new)
        (count_of-add_names k (name ∷ seen) names (add_name name t)
          ∙ ground (arith, new, is_in-same name k seen, count_of-add_name k name t))
]

is_in-nil : (k : List ℕ) → is_in k [] ≡ false
unfolding is_in
is_in-nil k = refl

count_of-tally :
    (k : List ℕ) (ms : Members) (t : Tally)
    → count_of k (tally ms t) ≡ count_of k t + supporters k ms
unfolding tally supporters
count_of-tally k [] t = omega arith
count_of-tally k ((id, m) ∷ ms) t = ground (
  arith,
  count_of-tally k ms (add_names [] m.protocols t),
  count_of-add_names k [] m.protocols t,
  is_in-nil k,
)

-- Every name that is counted is in the order.
abbrev IsListed : Tally → Type 0
IsListed t = (k : List ℕ) → 0 < count_of k t → is_in k t.order ≡ true

is_in-snoc :
    (k x : List ℕ) (xs : List (List ℕ)) → is_in k (xs ++ (x ∷ [])) ≡ (is_in k xs || same x k)
unfolding is_in
is_in-snoc k x [] = ground arith
is_in-snoc k x (y ∷ ys) = ground (arith, is_in-snoc k x ys)

count_of-same : (a k : List ℕ) (t : Tally) → same a k ≡ true → count_of a t ≡ count_of k t
count_of-same a k t h = ap (λ x. count_of x t) (same_eq a k h)

add_name-IsListed : (name : List ℕ) (t : Tally) → IsListed t → IsListed (add_name name t)
unfolding add_name
add_name-IsListed name t h k p = ground (
  arith,
  p,
  count_of-add_name k name t,
  h k,
  is_in-snoc k name t.order,
  is_in-same name k t.order,
  count_of-same name k t,
)

add_names-IsListed :
    (seen names : List (List ℕ)) (t : Tally) → IsListed t → IsListed (add_names seen names t)
unfolding add_names
add_names-IsListed seen [] t h = h
add_names-IsListed seen (name ∷ names) t h =
    if-both IsListed (is_in name seen) _ _ (add_names-IsListed seen names t h)
      (add_names-IsListed (name ∷ seen) names (add_name name t) (add_name-IsListed name t h))

tally-IsListed : (ms : Members) (t : Tally) → IsListed t → IsListed (tally ms t)
unfolding tally
tally-IsListed [] t h = h
tally-IsListed ((id, m) ∷ ms) t h =
    tally-IsListed ms (add_names [] m.protocols t) (add_names-IsListed [] m.protocols t h)

supporters_le : (k : List ℕ) (ms : Members) → supporters k ms ≤ length ms
unfolding supporters
supporters_le k [] = omega arith
supporters_le k ((id, m) ∷ ms) = ground (arith, supporters_le k ms)

-- What every member advertises.
abbrev pub IsCommon : Members → List ℕ → Type 0
IsCommon ms name = All (λ e. is_in name e.1.protocols ≡ true) ms

supporters-IsCommon : (k : List ℕ) (ms : Members) → supporters k ms ≡ length ms → IsCommon ms k
unfolding supporters
supporters-IsCommon k [] h = tt
supporters-IsCommon k ((id, m) ∷ ms) h = elim (Bool-cases (is_in k m.protocols)) [
  | inl e ↦ (e, supporters-IsCommon k ms (ground (arith, e, h)))
  | inr e ↦ absurd (ground (arith, e, h, supporters_le k ms))
]

IsCommon-supporters : (k : List ℕ) (ms : Members) → IsCommon ms k → supporters k ms ≡ length ms
unfolding supporters
IsCommon-supporters k [] h = refl
IsCommon-supporters k ((id, m) ∷ ms) h = ground (arith, h.0, IsCommon-supporters k ms h.1)

same_ap : (p : List ℕ → Bool) (x k : List ℕ) → same x k ≡ true → p x ≡ p k
same_ap p x k h = ap p (same_eq x k h)

first-passes :
    (p : List ℕ → Bool) (k : List ℕ) (xs : List (List ℕ))
    → is_in k xs ≡ true
    → p k ≡ true
    → (x : List ℕ) × (first p xs ≡ some x) × (p x ≡ true)
unfolding first is_in
first-passes p k [] i h = absurd cc
first-passes p k (x ∷ xs) i h = elim (Bool-cases (p x)) [
  | inl e ↦ rw (first, e) (x, refl, e)
  | inr e ↦ rw (first, e) (first-passes p k xs (ground (arith, i, e, same_ap p x k)) h)
]

no_names-IsListed : IsListed no_names
unfolding count_of find
no_names-IsListed k h = absurd (omega (arith, h))

count_of-all : (k : List ℕ) (ms : Members) → count_of k (tally ms no_names) ≡ supporters k ms
unfolding count_of find
count_of-all k ms = omega (arith, count_of-tally k ms no_names)

-- In a group with members, if some protocol is advertised by every member, then the one that is
-- chosen is advertised by every member.
pub pick_common_protocol-IsCommon :
    (lg : LiveGroup) (k : List ℕ)
    → 0 < length lg.persisted.members
    → IsCommon lg.persisted.members k
    → IsCommon lg.persisted.members (pick_common_protocol lg)
unfolding pick_common_protocol
pick_common_protocol-IsCommon lg k nonempty common =
    let ms = lg.persisted.members in
    let t = tally ms no_names in
    let full : count_of k t ≡ length ms = count_of-all k ms ∙ IsCommon-supporters k ms common in
    let (x, e, h) =
      first-passes (λ name. count_of name t == length ms) k t.order
        (tally-IsListed ms no_names no_names-IsListed k (omega (arith, nonempty, full)))
        ((==_iff (count_of k t) (length ms)).1 full) in
    let chosen : x ≡ pick_common_protocol lg =
      ap (λ o. or_else o (fallback lg.protocols)) (sym e) in
    subst (IsCommon ms) chosen
      (supporters-IsCommon x ms (sym (count_of-all x ms) ∙ (==_iff (count_of x t) (length ms)).0 h))
