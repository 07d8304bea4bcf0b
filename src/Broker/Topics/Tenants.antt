-- ===== src/Broker/Topics/Tenants.antt =====
-- internal/broker/broker.go: tenants are kept apart.
use kafka_wire.Prelude.{
  ℕ, ◌≡◌, refl, ap, ◌∙◌, sym, ◌⊎◌, inl, inr, Bool, List, [], ◌∷◌, All, some, Option, Option-cases,
  Bool-cases, length, ◌==◌, option-both, if-both, subst,
}
use kafka_wire.Prelude.Result.{Result, ok, err, ◌>>=◌, Result-cases}
use kafka_wire.Prelude.Int.{ℤ}
use kafka_wire.Prelude.Map.{same, same_eq, same-IsEqual, find, find-put_same}
use kafka_wire.Tiering.Manifest.{SegmentEntry}
use kafka_wire.Broker.Topics.{
  Topic, TopicConfig, TopicRegistry, BrokerError, partition, verify_topic_tenant,
  verify_topic_tenant_iff,
}
use kafka_wire.Broker.Topics.Registry.{create}
use kafka_wire.Broker.Topics.Service.{
  Broker, Fetched, register, ensure_topic_for_tenant, append_to, append_batches_authorized,
  fetch_authorized,
}

-- The principal may use the topic: it has no tenant, or its tenant owns the topic.
abbrev pub MayUse : List ℕ → Topic → Type 0
MayUse tenant t = (tenant ≡ []) ⊎ (t.cfg.owner_tenant_id ≡ tenant)

-- The registry has the topic, and the principal may use it.
abbrev pub IsOpenTo : TopicRegistry → List ℕ → List ℕ → Type 0
IsOpenTo r tenant topic = (t : Topic) × (find same topic r ≡ some t) × MayUse tenant t

refused {ℓ} : {E : Type 0} {A : Type ℓ} {e : E} {a : A} → err e ≡ ok a → ⊥
refused h = cc h

one : (u : Unit {0}) → u ≡ tt
one u = refl

-- If an authorized fetch succeeds, from the log or from the archive, then the topic is registered
-- and the principal may use it: it has no tenant, or its tenant owns the topic.
pub fetch_authorized-IsOpenTo :
    (restore : SegmentEntry → Option (List ℕ)) (b : Broker) (topic : List ℕ) (idx offset : ℤ)
    (max_bytes : ℕ) (tenant : List ℕ) (f : Fetched)
    → fetch_authorized restore b topic idx offset max_bytes tenant ≡ ok f
    → IsOpenTo b.topics tenant topic
unfolding fetch_authorized
fetch_authorized-IsOpenTo restore b topic idx offset max_bytes tenant f h =
    elim (Option-cases (find same topic b.topics)) [
      | inl e ↦ absurd (refused (rw (fetch_authorized, e) at h))
      | inr (t, e) ↦ elim (Result-cases (verify_topic_tenant t tenant)) [
        | inr (x, v) ↦ absurd (refused (rw (fetch_authorized, e, v) at h))
        | inl (u, v) ↦ (t, e, (verify_topic_tenant_iff t tenant).0 (v ∙ ap ok (one u)))
      ]
    ]

-- A write reaches the log of the topic and no other, if the principal may use the topic.
append_to-IsOpenTo :
    (crc32c : List ℕ → ℕ) (paused : Bool) (clock : ℕ → ℕ) (b : Broker) (t : Topic) (idx : ℤ)
    (batches : List (List ℕ)) (tenant : List ℕ) (o : ℤ)
    → (append_to crc32c paused clock b t idx batches tenant).1 ≡ ok o
    → MayUse tenant t
      × IsOpenTo (append_to crc32c paused clock b t idx batches tenant).0.topics tenant t.name
unfolding append_to
append_to-IsOpenTo crc32c paused clock b t idx batches tenant o h =
    elim (Result-cases (verify_topic_tenant t tenant)) [
      | inr (x, v) ↦ absurd (refused (rw (append_to, v) at h))
      | inl (u, v) ↦
          let may = (verify_topic_tenant_iff t tenant).0 (v ∙ ap ok (one u)) in
          elim (Option-cases (partition t idx)) [
            | inl e ↦ absurd (refused (rw (append_to, v, e) at h))
            | inr (l, e) ↦
                rw (append_to, v, e)
                  (may, (_, find-put_same same same-IsEqual t.name _ b.topics, may))
          ]
    ]

-- Topics are registered under their own names.
abbrev pub IsNamed : TopicRegistry → Type 0
IsNamed r = All (λ e. e.1.name ≡ e.0) r

find-IsNamed :
    (r : TopicRegistry) (topic : List ℕ) (t : Topic)
    → IsNamed r
    → find same topic r ≡ some t
    → t.name ≡ topic
unfolding find
find-IsNamed [] topic t named h = absurd cc
find-IsNamed ((k, x) ∷ r) topic t named h = elim (Bool-cases (same k topic)) [
  | inl here ↦
      let e : x ≡ t = cc (rw (find, here) at h) in
      ap (λ y. y.name) (sym e) ∙ named.0 ∙ same_eq k topic here
  | inr other ↦ find-IsNamed r topic t named.1 (rw (find, other) at h)
]

-- A topic that was found or made has the name.
abbrev OkNamed : {A : Type 0} → List ℕ → Result BrokerError (A × Topic) → Type 0
OkNamed name (ok made) = made.1.name ≡ name
OkNamed name (err e) = Unit

register-OkNamed :
    (crc32c : List ℕ → ℕ) (now : ℕ) (b : Broker) (name : List ℕ) (cfg : TopicConfig)
    → OkNamed name (register crc32c now b name cfg)
unfolding create
register-OkNamed crc32c now b name cfg =
    let P = λ (r : Result BrokerError (TopicRegistry × Topic)).
      OkNamed name (r >>= λ made. ok (record b { topics = made.0 }, made.1)) in
    if-both P (length name == 0) _ _ tt (option-both P (find same name b.topics) _ _ refl λ t. tt)

ensure-OkNamed :
    (crc32c : List ℕ → ℕ) (now : ℕ) (b : Broker) (name : List ℕ) (partitions : ℤ) (tenant : List ℕ)
    → IsNamed b.topics
    → OkNamed name (ensure_topic_for_tenant crc32c now b name partitions tenant)
unfolding ensure_topic_for_tenant
ensure-OkNamed crc32c now b name partitions tenant named =
    elim (Option-cases (find same name b.topics)) [
      | inr (t, e) ↦ rw (ensure_topic_for_tenant, e) (find-IsNamed b.topics name t named e)
      | inl e ↦
          rw (ensure_topic_for_tenant, e)
            (if-both (OkNamed name) b.auto_create _ _ (register-OkNamed crc32c now b name _) tt)
    ]

open_under :
    (crc32c : List ℕ → ℕ) (paused : Bool) (clock : ℕ → ℕ) (b : Broker) (t : Topic) (idx : ℤ)
    (batches : List (List ℕ)) (tenant : List ℕ) (o : ℤ) (topic : List ℕ)
    → t.name ≡ topic
    → (append_to crc32c paused clock b t idx batches tenant).1 ≡ ok o
    → IsOpenTo (append_to crc32c paused clock b t idx batches tenant).0.topics tenant topic
open_under crc32c paused clock b t idx batches tenant o topic e h =
    subst (IsOpenTo (append_to crc32c paused clock b t idx batches tenant).0.topics tenant) e
      (append_to-IsOpenTo crc32c paused clock b t idx batches tenant o h).1

-- With topics registered under their own names, a write that succeeds, to a topic that was there or
-- to one that it creates, leaves the topic registered, and the principal may use it: it has no
-- tenant, or its tenant owns the topic.
pub append_batches_authorized-IsOpenTo :
    (crc32c : List ℕ → ℕ) (paused : Bool) (clock : ℕ → ℕ) (b : Broker) (topic : List ℕ) (idx : ℤ)
    (batches : List (List ℕ)) (tenant : List ℕ) (o : ℤ)
    → IsNamed b.topics
    → (append_batches_authorized crc32c paused clock b topic idx batches tenant).1 ≡ ok o
    → IsOpenTo
        (append_batches_authorized crc32c paused clock b topic idx batches tenant).0.topics
        tenant
        topic
unfolding append_batches_authorized
append_batches_authorized-IsOpenTo crc32c paused clock b topic idx batches tenant o named h =
    elim (Option-cases (find same topic b.topics)) [
      | inr (t, e) ↦
          rw (append_batches_authorized, e)
            (open_under crc32c paused clock b t idx batches tenant o topic
              (find-IsNamed b.topics topic t named e) (rw (append_batches_authorized, e) at h))
      | inl e ↦
          elim (Result-cases
            (ensure_topic_for_tenant crc32c (clock 0) b topic b.default_partitions tenant)) [
              | inr (x, v) ↦ absurd (refused (rw (append_batches_authorized, e, v) at h))
              | inl (made, v) ↦
                  rw (append_batches_authorized, e, v)
                    (open_under crc32c paused clock made.0 made.1 idx batches tenant o topic
                      (subst (OkNamed topic) v
                        (ensure-OkNamed crc32c (clock 0) b topic b.default_partitions tenant named))
                      (rw (append_batches_authorized, e, v) at h))
            ]
    ]
