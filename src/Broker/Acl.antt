-- ===== src/Broker/Acl.antt =====
-- internal/broker/acl.go: which principal may do what to which topics and groups. Strings are lists of
-- bytes, the state is a map by principal name, and saving it to acls.json succeeds.
pub mod Authorize
mod Tests
use kafka_wire.Prelude.{
  ℕ, Bool, true, false, not, ◌&&◌, ◌||◌, List, [], ◌∷◌, Option, none, some, length, ◌==◌,
  if◌then◌else◌,
}
use kafka_wire.Prelude.Result.{Result, ok, err}
use kafka_wire.Prelude.Map.{same, find, put, remove}

abbrev pub op_read : List ℕ
op_read = 114 ∷ (101 ∷ (97 ∷ (100 ∷ [])))

abbrev pub op_write : List ℕ
op_write = 119 ∷ (114 ∷ (105 ∷ (116 ∷ (101 ∷ []))))

-- TopicPrefixACL and GroupPrefixACL.
pub record PrefixAcl : Type 0 where
  pub prefix : List ℕ
  pub ops : List (List ℕ)

pub record Principal : Type 0 where
  pub name : List ℕ
  pub tenant_id : Option (List ℕ)
  pub topic_prefixes : List PrefixAcl
  pub groups : List PrefixAcl

pub data AclError : Type 0 where
  name_required invalid_topic_op invalid_group_op : AclError

abbrev pub AclStore : Type 0
AclStore = List (List ℕ × Principal)

-- `strings.HasPrefix`
unfoldable pub has_prefix : List ℕ → List ℕ → Bool
has_prefix s [] = true
has_prefix [] (p ∷ ps) = false
has_prefix (c ∷ s) (p ∷ ps) = c == p && has_prefix s ps

unfoldable pub any {ℓ} : {A : Type ℓ} → (A → Bool) → List A → Bool
any p [] = false
any p (x ∷ xs) = p x || any p xs

abbrev pub is_topic_op : List ℕ → Bool
is_topic_op op = same op op_read || same op op_write

abbrev pub is_group_op : List ℕ → Bool
is_group_op op = same op op_read

-- The loops of `Upsert` over the ops: whether one of them is not allowed.
unfoldable pub has_bad_op : (List ℕ → Bool) → List PrefixAcl → Bool
has_bad_op good acls = any (λ a. any (λ op. not (good op)) a.ops) acls

unfoldable pub upsert : AclStore → Principal → AclStore × Result AclError (Unit {0})
upsert s p =
    if length p.name == 0
    then (s, err name_required)
    else if has_bad_op is_topic_op p.topic_prefixes
    then (s, err invalid_topic_op)
    else if has_bad_op is_group_op p.groups
    then (s, err invalid_group_op)
    else (put same p.name p s, ok tt)

unfoldable pub delete : AclStore → List ℕ → AclStore
delete s name = remove same name s

unfoldable pub configured : AclStore → Bool
configured s = elim s [ [] ↦ false | p ∷ rest ↦ true ]

-- The loops of `AuthorizeTopic` and `AuthorizeGroup`.
unfoldable pub grants : List PrefixAcl → List ℕ → List ℕ → Bool
grants [] name op = false
grants (a ∷ rest) name op =
    let more = grants rest name op in
    if not (has_prefix name a.prefix)
    then more
    else if any (λ o. same o op) a.ops
    then true
    else more

abbrev pub authorize : (Principal → List PrefixAcl) → AclStore → List ℕ → List ℕ → List ℕ → Bool
authorize acls s principal name op =
    if not (configured s)
    then true
    else if length principal == 0
    then false
    else elim (find same principal s) [ none ↦ false | some p ↦ grants (acls p) name op ]

unfoldable pub authorize_topic : AclStore → List ℕ → List ℕ → List ℕ → Bool
authorize_topic s principal topic op = authorize (λ p. p.topic_prefixes) s principal topic op

unfoldable pub authorize_group : AclStore → List ℕ → List ℕ → List ℕ → Bool
authorize_group s principal group_id op = authorize (λ p. p.groups) s principal group_id op

-- The tenant of a principal, the empty string for none.
unfoldable pub tenant_of : AclStore → List ℕ → List ℕ
tenant_of s principal = if length principal == 0 then [] else elim (find same principal s) [
  | none ↦ []
  | some p ↦ elim p.tenant_id [ none ↦ [] | some t ↦ t ]
]
