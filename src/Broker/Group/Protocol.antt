-- ===== src/Broker/Group/Protocol.antt =====
-- internal/broker/group.go: the choice of an assignment protocol that every member supports.
use kafka_wire.Prelude.{ℕ, ◌+◌, Bool, false, ◌||◌, List, [], ◌∷◌, ◌++◌, ◌==◌, length, if◌then◌else◌}
use kafka_wire.Prelude.Map.{same, find, put}
use kafka_wire.Prelude.Select.{first}
use kafka_wire.Broker.Offsets.{or_else}
use kafka_wire.Broker.Group.{LiveGroup, GroupProtocol}
use kafka_wire.Broker.Group.Members.{Members}

unfoldable pub is_in : List ℕ → List (List ℕ) → Bool
is_in x [] = false
is_in x (y ∷ ys) = same y x || is_in x ys

-- The variables `counts` and `order`.
pub record Tally : Type 0 where
  pub counts : List (List ℕ × ℕ)
  pub order : List (List ℕ)

unfoldable pub count_of : List ℕ → Tally → ℕ
count_of name t = or_else (find same name t.counts) 0

unfoldable pub add_name : List ℕ → Tally → Tally
add_name name t = record {
  counts = put same name (count_of name t + 1) t.counts;
  order = if count_of name t == 0 then t.order ++ (name ∷ []) else t.order;
}

-- The names of one member, each counted once.
unfoldable pub add_names : List (List ℕ) → List (List ℕ) → Tally → Tally
add_names seen [] t = t
add_names seen (name ∷ names) t =
    let skipped = add_names seen names t in
    let counted = add_names (name ∷ seen) names (add_name name t) in
    if is_in name seen then skipped else counted

unfoldable pub tally : Members → Tally → Tally
tally [] t = t
tally ((id, m) ∷ ms) t = tally ms (add_names [] m.protocols t)

abbrev pub no_names : Tally
no_names = record { counts = []; order = [] }

abbrev pub fallback : List GroupProtocol → List ℕ
fallback [] = []
fallback (p ∷ ps) = p.name

unfoldable pub pick_common_protocol : LiveGroup → List ℕ
pick_common_protocol lg =
    let t = tally lg.persisted.members no_names in
    or_else (first (λ name. count_of name t == length lg.persisted.members) t.order)
      (fallback lg.protocols)

unfoldable pub join_group_subscription_bytes : List GroupProtocol → List ℕ
join_group_subscription_bytes [] = []
join_group_subscription_bytes (p ∷ ps) = p.metadata
