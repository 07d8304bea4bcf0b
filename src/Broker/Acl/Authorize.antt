-- ===== src/Broker/Acl/Authorize.antt =====
-- What a principal is allowed.
use kafka_wire.Prelude.{
  ℕ, ◌≡◌, ◌≢◌, ◌↔◌, ◌⊎◌, refl, ap, ◌∙◌, sym, subst, inl, inr, true, List, [], ◌∷◌, ◌++◌, none, some,
  arith, Bool-cases, Option-cases,
}
use kafka_wire.Prelude.Map.{same, same_eq, ne_of_same, find}
use kafka_wire.Broker.Acl.{
  PrefixAcl, Principal, AclStore, has_prefix, any, configured, grants, authorize_topic,
}

-- An element of the list with the property.
unfoldable pub Exists : {A : Type 0} → (A → Type 0) → List A → Type 0
Exists P [] = ⊥
Exists P (x ∷ xs) = P x ⊎ Exists P xs

has_prefix_sound : (s p : List ℕ) → has_prefix s p ≡ true → (rest : List ℕ) × (s ≡ p ++ rest)
unfolding has_prefix
has_prefix_sound s [] h = (s, refl)
has_prefix_sound [] (q ∷ p) h = absurd cc
has_prefix_sound (c ∷ s) (q ∷ p) h =
    let (rest, e) = has_prefix_sound s p (ground (arith, h)) in
    let head : c ≡ q = ground (arith, h) in (rest, cc (head, e))

has_prefix_complete : (p rest : List ℕ) → has_prefix (p ++ rest) p ≡ true
unfolding has_prefix
has_prefix_complete [] rest = refl
has_prefix_complete (q ∷ p) rest = ground (arith, has_prefix_complete p rest)

any_iff :
    (op : List ℕ) (ops : List (List ℕ))
    → (any (λ o. same o op) ops ≡ true) ↔ Exists (λ o. o ≡ op) ops
unfolding any Exists
any_iff op [] = ground arith
any_iff op (o ∷ ops) = ground (arith, any_iff op ops, same_eq o op, ne_of_same o op)

-- A grant of the operation on the names that start with its prefix.
abbrev pub IsGrant : List ℕ → List ℕ → PrefixAcl → Type 0
IsGrant name op a = ((rest : List ℕ) × (name ≡ a.prefix ++ rest)) × Exists (λ o. o ≡ op) a.ops

grants_sound :
    (acls : List PrefixAcl) (name op : List ℕ)
    → grants acls name op ≡ true
    → Exists (IsGrant name op) acls
unfolding grants Exists
grants_sound [] name op h = absurd cc
grants_sound (a ∷ acls) name op h = elim (Bool-cases (has_prefix name a.prefix)) [
  | inr off ↦ inr (grants_sound acls name op (rw (off, grants) at h))
  | inl on ↦ elim (Bool-cases (any (λ o. same o op) a.ops)) [
    | inl has ↦ inl (has_prefix_sound name a.prefix on, (any_iff op a.ops).0 has)
    | inr lacks ↦ inr (grants_sound acls name op (rw (on, lacks, grants) at h))
  ]
]

grants_complete :
    (acls : List PrefixAcl) (name op : List ℕ)
    → Exists (IsGrant name op) acls
    → grants acls name op ≡ true
unfolding grants Exists
grants_complete [] name op h = absurd h
grants_complete (a ∷ acls) name op (inl ((rest, e), has)) =
    let on : has_prefix name a.prefix ≡ true =
      ap (λ n. has_prefix n a.prefix) e ∙ has_prefix_complete a.prefix rest in
    rw (on, (any_iff op a.ops).1 has)
grants_complete (a ∷ acls) name op (inr h) =
    let more = grants_complete acls name op h in ground (arith, more)

-- The rights of a principal of the store.
abbrev pub IsAllowed : AclStore → List ℕ → List ℕ → List ℕ → Type 0
IsAllowed s principal topic op =
    (principal ≢ [])
    × (p : Principal) × (find same principal s ≡ some p)
    × Exists (IsGrant topic op) p.topic_prefixes

-- Once a principal is configured, a request on a topic is let through exactly if it comes from a named
-- principal of the store, and one of that principal's grants has the operation and a prefix that the
-- topic's name starts with.
pub authorize_topic_iff :
    (s : AclStore) (principal topic op : List ℕ)
    → configured s ≡ true
    → (authorize_topic s principal topic op ≡ true) ↔ IsAllowed s principal topic op
unfolding authorize_topic
authorize_topic_iff s [] topic op on =
    ((λ h. absurd (ground (arith, on, h))), (λ a. absurd (a.0 refl)))
authorize_topic_iff s (c ∷ principal) topic op on =
    elim (Option-cases (find same (c ∷ principal) s)) [
      | inl e ↦ ((λ h. absurd (ground (arith, on, h, e))), (λ a. absurd (cc (e, a.2))))
      | inr (p, e) ↦ (
        (λ h. (
          (ground arith),
          p,
          e,
          grants_sound p.topic_prefixes topic op (ground (arith, on, e, h)),
        )),
        (λ a.
            let grant : Exists (IsGrant topic op) p.topic_prefixes =
              subst
                (λ o.
                  Exists (IsGrant topic op)
                    (elim o [ none ↦ p.topic_prefixes | some q ↦ q.topic_prefixes ]))
                (sym a.2 ∙ e) a.3 in
            ground (arith, on, e, grants_complete p.topic_prefixes topic op grant)),
      )
    ]
