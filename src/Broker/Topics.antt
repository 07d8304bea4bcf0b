-- ===== src/Broker/Topics.antt =====
-- internal/broker/topic.go and broker.go: topics by name with their partitions, the tenant check, and
-- the answers to offset queries. Strings are lists of bytes, a partition is its log.
pub mod Registry
pub mod Archive
pub mod Service
pub mod Tenants
pub mod Renewal
mod ServiceTests
use kafka_wire.Prelude.{
  ℕ, Bool, true, false, List, [], ◌∷◌, Option, none, some, ◌==◌, length, get_elem?, if◌then◌else◌,
  ◌≡◌, ◌↔◌, ◌⊎◌, ◌≢◌, inl, inr, arith, Bool-cases, refl, sym,
}
use kafka_wire.Prelude.Result.{Result, ok, err}
use kafka_wire.Prelude.Int.{ℤ, pos, negsuc, ltb_ℤ, eqb_ℤ, pos_part}
use kafka_wire.Prelude.Map.{same, same_refl, same_eq, ne_of_same, find}
use kafka_wire.Storage.Record.{RecordError}
use kafka_wire.Broker.Names.{NameError}
use kafka_wire.Storage.Log.{Log, LogError, earliest_offset, high_watermark, lookup_loop}

pub record TopicConfig : Type 0 where
  pub num_partitions : ℤ
  pub replication_factor : ℤ
  pub retention_ms : ℤ
  pub retention_bytes : ℤ
  pub segment_bytes : ℤ
  pub owner_tenant_id : List ℕ

pub record Topic : Type 0 where
  pub name : List ℕ
  pub partitions : List Log
  pub cfg : TopicConfig

abbrev pub TopicRegistry : Type 0
TopicRegistry = List (List ℕ × Topic)

pub data BrokerError : Type 0 where
  unknown_topic unknown_partition unauthorized_topic topic_exists : BrokerError
  name_required too_many_partitions restore_failed : BrokerError
  invalid_name : NameError → BrokerError
  log_failed : LogError → BrokerError
  bad_batch : RecordError → BrokerError

unfoldable pub partition : Topic → ℤ → Option Log
partition t idx = if ltb_ℤ idx (pos 0) then none else get_elem? t.partitions (pos_part idx)

unfoldable pub verify_topic_tenant : Topic → List ℕ → Result BrokerError (Unit {0})
verify_topic_tenant t principal_tenant =
    if length principal_tenant == 0
    then ok tt
    else if length t.cfg.owner_tenant_id == 0
    then err unauthorized_topic
    else if same t.cfg.owner_tenant_id principal_tenant
    then ok tt
    else err unauthorized_topic

-- The offset and the timestamp of the answer.
unfoldable pub list_offsets : TopicRegistry → List ℕ → ℤ → ℤ → Result BrokerError (ℤ × ℤ)
list_offsets r topic idx timestamp = elim (find same topic r) [
  | none ↦ err unknown_topic
  | some t ↦ elim (partition t idx) [
    | none ↦ err unknown_partition
    | some l ↦
        if eqb_ℤ timestamp (negsuc 1)
        then ok (earliest_offset l, negsuc 0)
        else if eqb_ℤ timestamp (negsuc 0)
        then ok (high_watermark l, negsuc 0)
        else elim (lookup_loop l.segments timestamp) [
          | none ↦ ok (negsuc 0, negsuc 0)
          | some offset ↦ ok (offset, timestamp)
        ]
  ]
]

-- The tenant check lets a principal through exactly if it has no tenant, or its tenant owns the topic:
-- two tenants never both pass for one topic, and no tenant passes for a topic that nobody owns.
pub verify_topic_tenant_iff :
    (t : Topic) (principal_tenant : List ℕ)
    → (verify_topic_tenant t principal_tenant ≡ ok tt)
      ↔ ((principal_tenant ≡ []) ⊎ (t.cfg.owner_tenant_id ≡ principal_tenant))
unfolding verify_topic_tenant
verify_topic_tenant_iff t [] = ((λ h. inl refl), (λ h. refl))
verify_topic_tenant_iff t (c ∷ tenant) = ground (
  arith,
  same_eq t.cfg.owner_tenant_id (c ∷ tenant),
  ne_of_same t.cfg.owner_tenant_id (c ∷ tenant),
)
