-- ===== src/Broker/Group/Rounds.antt =====
-- internal/broker/group.go: what each operation does to the rounds of a group and to its generation.
use kafka_wire.Prelude.{
  drop, ◌==◌, ℕ, suc, ◌≡◌, refl, ap, ◌∙◌, sym, ◌⊎◌, inl, inr, Bool, true, false, List, [], ◌∷◌, All,
  ◌&&◌, length, arith, Bool-cases, if◌then◌else◌, ltb, subst,
}
use kafka_wire.Broker.Group.{LiveGroup, RebalanceRound, JoinGroupArgs, with_round}
use kafka_wire.Broker.Group.Close.{next_generation, close_round}
use kafka_wire.Broker.Group.Barrier.{
  open_round, with_fresh, enter, join_round, register, expire_round, all_rejoined,
}
use kafka_wire.Broker.Group.Settled.{close_round-rounds}

-- Rounds are numbered in their order, only the newest may be open, and an open one has no answers yet.
unfoldable pub IsOrdered : List RebalanceRound → Type 0
IsOrdered [] = Unit
IsOrdered (r ∷ rs) =
    (r.number ≡ length rs)
    × (r.closed ≡ false → r.results ≡ [])
    × All (λ p. p.closed ≡ true) rs
    × IsOrdered rs

unfoldable pub closed_rounds : List RebalanceRound → ℕ
closed_rounds [] = 0
closed_rounds (r ∷ rs) = if r.closed then suc (closed_rounds rs) else closed_rounds rs

-- Neither the generation nor the number of closed rounds changes.
abbrev pub IsQuiet : LiveGroup → LiveGroup → Type 0
IsQuiet lg lg' =
    (lg'.persisted.generation ≡ lg.persisted.generation)
    × (closed_rounds lg'.rounds ≡ closed_rounds lg.rounds)

-- One more round is closed, and the generation goes up by one.
abbrev pub IsAdvance : LiveGroup → LiveGroup → Type 0
IsAdvance lg lg' =
    (lg'.persisted.generation ≡ next_generation lg.persisted.generation)
    × (closed_rounds lg'.rounds ≡ suc (closed_rounds lg.rounds))

abbrev pub IsGood : LiveGroup → LiveGroup → Type 0
IsGood lg lg' = IsOrdered lg'.rounds × (IsQuiet lg lg' ⊎ IsAdvance lg lg')

unchanged :
    (lg lg' : LiveGroup)
    → lg'.rounds ≡ lg.rounds
    → lg'.persisted.generation ≡ lg.persisted.generation
    → IsQuiet lg lg'
unchanged lg lg' rounds generation = (generation, ap closed_rounds rounds)

-- What leaves the rounds and the generation alone.
pub still-IsGood :
    (lg lg' : LiveGroup)
    → IsOrdered lg.rounds
    → lg'.rounds ≡ lg.rounds
    → lg'.persisted.generation ≡ lg.persisted.generation
    → IsGood lg lg'
still-IsGood lg lg' h rounds generation =
    (subst IsOrdered (sym rounds) h, inl (unchanged lg lg' rounds generation))

pub IsGood-after : (a b c : LiveGroup) → IsQuiet a b → IsGood b c → IsGood a c
IsGood-after a b c (e, n) (ordered, inl (g, m)) = (ordered, inl (g ∙ e, m ∙ n))
IsGood-after a b c (e, n) (ordered, inr (g, m)) =
    (ordered, inr (g ∙ ap next_generation e, m ∙ ap suc n))

module _ (now : ℕ) (lg : LiveGroup) (r : RebalanceRound) (rs : List RebalanceRound) where
  abbrev pub here : LiveGroup
  here = record lg { rounds = r ∷ rs }

  pub close_round-closed : r.closed ≡ true → close_round now here r ≡ here
  unfolding close_round
  close_round-closed over = rw (close_round, over) refl

  close_round-IsGood : IsOrdered (r ∷ rs) → IsGood here (close_round now here r)
  unfolding IsOrdered closed_rounds
  close_round-IsGood h = elim (Bool-cases r.closed) [
    | inl over ↦ rw (close_round-closed over) (h, inl (refl, refl))
    | inr still ↦
        let (rounds, generation) = close_round-rounds now here r still in
        let more : closed_rounds (close_round now here r).rounds ≡ suc (closed_rounds (r ∷ rs)) =
          ap closed_rounds rounds ∙ ground (arith, still) in
        (subst IsOrdered (sym rounds) (h.0, λ c. absurd cc, h.2, h.3), inr (generation, more))
  ]

  pub expire_round-IsGood :
      (number : ℕ) → IsOrdered (r ∷ rs) → IsGood here (expire_round now number here)
  unfolding expire_round
  expire_round-IsGood number h = elim (Bool-cases (r.number == number)) [
    | inl e ↦ rw (expire_round, e) (close_round-IsGood h)
    | inr e ↦ rw (expire_round, e) (h, inl (refl, refl))
  ]

-- A group beside its open round.
abbrev pub IsOpened : LiveGroup → LiveGroup × RebalanceRound → Type 0
IsOpened lg (g, r) =
    (g.rounds ≡ (r ∷ drop 1 g.rounds)) × (r.closed ≡ false) × IsOrdered g.rounds × IsQuiet lg g

with_fresh-IsOpened :
    (now : ℕ) (args : JoinGroupArgs) (lg : LiveGroup)
    → IsOrdered lg.rounds
    → All (λ p. p.closed ≡ true) lg.rounds
    → IsOpened lg (with_fresh now args lg)
unfolding IsOrdered closed_rounds
with_fresh-IsOpened now args lg h over = (refl, refl, (refl, λ c. refl, over, h), (refl, refl))

reopened :
    (now : ℕ) (args : JoinGroupArgs) (lg : LiveGroup) (r : RebalanceRound)
    (rs : List RebalanceRound) (b : Bool)
    → r.closed ≡ b
    → IsOrdered (r ∷ rs)
    → let g = record lg { rounds = r ∷ rs } in
      IsOpened g (if b then with_fresh now args g else (g, r))
unfolding IsOrdered
reopened now args lg r rs true over h =
    with_fresh-IsOpened now args (record lg { rounds = r ∷ rs }) h (over, h.2)
reopened now args lg r rs false still h = (refl, still, h, (refl, refl))

pub open_round-IsOpened :
    (now : ℕ) (args : JoinGroupArgs) (lg : LiveGroup) (rs : List RebalanceRound)
    → IsOrdered rs
    → IsOpened (record lg { rounds = rs }) (open_round now args (record lg { rounds = rs }))
unfolding open_round
open_round-IsOpened now args lg [] h = with_fresh-IsOpened now args (record lg { rounds = [] }) h tt
open_round-IsOpened now args lg (r ∷ rs) h = reopened now args lg r rs r.closed refl h

-- The round that a member has joined, in the place of the open one.
abbrev joined_in : ℕ → List ℕ → JoinGroupArgs → LiveGroup × RebalanceRound → LiveGroup
joined_in now id args (lg, r) = with_round (enter now id args lg) (join_round id r)

-- What `register` makes of a group beside its open round.
abbrev settled_if : ℕ → LiveGroup → RebalanceRound → Bool → LiveGroup
settled_if now g r full = if full then close_round now g r else g

settled_if-IsGood :
    (now : ℕ) (lg : LiveGroup) (r : RebalanceRound) (rs : List RebalanceRound) (full : Bool)
    → IsOrdered (r ∷ rs)
    → let g = record lg { rounds = r ∷ rs } in IsGood g (settled_if now g r full)
settled_if-IsGood now lg r rs true h = close_round-IsGood now lg r rs h
settled_if-IsGood now lg r rs false h = (h, inl (refl, refl))

registered :
    (now : ℕ) (id : List ℕ) (args : JoinGroupArgs) (lg : LiveGroup) (o : LiveGroup × RebalanceRound)
    (full : Bool)
    → IsOpened lg o
    → IsGood lg (settled_if now (joined_in now id args o) (join_round id o.1) full)
unfolding enter join_round IsOrdered closed_rounds
registered now id args lg (g, r) full (head, still, h, quiet) =
    let in_place = joined_in now id args (g, r) in
    let done = settled_if now in_place (join_round id r) full in
    IsGood-after lg g done quiet (
      IsGood-after g in_place done (refl, ap closed_rounds (sym head))
        (settled_if-IsGood now (enter now id args g) (join_round id r) (drop 1 g.rounds) full
          (subst IsOrdered head h)))

register-group :
    (now : ℕ) (id : List ℕ) (args : JoinGroupArgs) (lg : LiveGroup)
    → let o = open_round now args lg in
      let r = join_round id o.1 in
      (register now id args lg).0
      ≡ settled_if now
          (joined_in now id args o)
          r
          (ltb 0 (length r.expected) && all_rejoined r r.expected)
unfolding register
register-group now id args lg = refl

pub register-IsGood :
    (now : ℕ) (id : List ℕ) (args : JoinGroupArgs) (lg : LiveGroup)
    → IsOrdered lg.rounds
    → IsGood lg (register now id args lg).0
register-IsGood now id args lg h = subst (IsGood lg) (sym (register-group now id args lg)) (
    registered now id args lg (open_round now args lg) _
      (open_round-IsOpened now args lg lg.rounds h))
