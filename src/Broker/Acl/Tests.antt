-- ===== src/Broker/Acl/Tests.antt =====
-- A principal that may read the topics of one prefix.
use kafka_wire.Prelude.{◌≡◌, ◌↔◌, refl, true, [], ◌∷◌, none}
use kafka_wire.Broker.Acl.{Principal, AclStore, op_read, configured, authorize_topic}
use kafka_wire.Broker.Acl.Authorize.{IsAllowed, authorize_topic_iff}

abbrev reader : Principal
reader = record {
  name = 114 ∷ [];
  tenant_id = none;
  topic_prefixes = record { prefix = 116 ∷ []; ops = op_read ∷ [] } ∷ [];
  groups = [];
}

abbrev store : AclStore
store = (114 ∷ [], reader) ∷ []

configured-store : configured store ≡ true
unfolding configured
configured-store = refl

authorize_topic_iff_example :
    (authorize_topic store (114 ∷ []) (116 ∷ (46 ∷ [])) op_read ≡ true)
    ↔ IsAllowed store (114 ∷ []) (116 ∷ (46 ∷ [])) op_read
authorize_topic_iff_example =
    authorize_topic_iff store (114 ∷ []) (116 ∷ (46 ∷ [])) op_read configured-store
