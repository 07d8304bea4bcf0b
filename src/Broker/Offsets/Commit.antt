-- ===== src/Broker/Offsets/Commit.antt =====
-- Committed offsets read back.
use kafka_wire.Prelude.{
  ℕ, ◌≡◌, ◌≢◌, refl, ap, ◌∙◌, sym, inl, inr, false, List, [], Option, none, some, arith,
  Option-cases, Bool-cases,
}
use kafka_wire.Prelude.Result.{ok, Result-cases}
use kafka_wire.Prelude.Int.{ℤ, eqb_ℤ, eq_of_parts}
use kafka_wire.Prelude.Map.{
  same, same_eq, find, put, find-put_same, find-put_other, same-IsEqual, IsEqual,
}
use kafka_wire.Broker.Names.{validate_name}
use kafka_wire.Broker.Offsets.{
  CommittedOffset, GroupState, OffsetStore, TopicOffsets, new_group, or_else, set_offset,
  commit_valid, commit_offset, fetch_offset, no_offset,
}

eqb_ℤ-IsEqual : IsEqual eqb_ℤ
eqb_ℤ-IsEqual = record {
  eq_refl = λ k. ground arith;
  eq_of = λ j k e. eq_of_parts j k (ground (arith, e));
}

eqb_ℤ_ne : (j k : ℤ) → j ≢ k → eqb_ℤ j k ≡ false
eqb_ℤ_ne j k h = elim (Bool-cases (eqb_ℤ j k)) [
  | inl e ↦ absurd (h (eqb_ℤ-IsEqual.eq_of j k e))
  | inr e ↦ e
]

-- The reading of a commit, group by group, topic by topic.
abbrev parts_of : Option TopicOffsets → ℤ → CommittedOffset
parts_of parts partition = elim parts [
  | none ↦ no_offset
  | some m ↦ or_else (find eqb_ℤ partition m) no_offset
]

abbrev read : Option GroupState → List ℕ → ℤ → CommittedOffset
read gs topic partition = elim gs [
  | none ↦ no_offset
  | some g ↦ parts_of (find same topic g.offsets) partition
]

fetch-read :
    (s : OffsetStore) (group_id topic : List ℕ) (partition : ℤ)
    → fetch_offset s group_id topic partition ≡ read (find same group_id s) topic partition
unfolding fetch_offset
fetch-read s group_id topic partition = ground arith

module _ (s : OffsetStore) (now : ℕ) (group topic : List ℕ) (partition : ℤ)
    (c : CommittedOffset) where
  old : GroupState
  old = or_else (find same group s) (new_group group now)

  changed : GroupState
  changed = record (set_offset old topic partition c) { updated_at = now }

  abbrev committed : OffsetStore
  committed = commit_valid s now group topic partition c

  -- A group that is created has no offset of any partition.
  read-old : (t : List ℕ) (p : ℤ) → read (some old) t p ≡ read (find same group s) t p
  unfolding old find
  read-old t p = elim (Option-cases (find same group s)) [ inl e ↦ rw e | inr (gs, e) ↦ rw e ]

  read-new : read (some changed) topic partition ≡ c
  unfolding changed set_offset
  read-new = rw (
    find-put_same same same-IsEqual topic
        (put eqb_ℤ partition c (or_else (find same topic old.offsets) [])) old.offsets,
    find-put_same eqb_ℤ eqb_ℤ-IsEqual partition c (or_else (find same topic old.offsets) []),
  )

  read-other_topic :
      (t : List ℕ) (p : ℤ) → same topic t ≡ false → read (some changed) t p ≡ read (some old) t p
  unfolding changed set_offset
  read-other_topic t p h = rw (find-put_other same same-IsEqual topic t _ old.offsets h)

  parts-or_else :
      (o : Option TopicOffsets) (p : ℤ)
      → or_else (find eqb_ℤ p (or_else o [])) no_offset ≡ parts_of o p
  unfolding find
  parts-or_else none p = refl
  parts-or_else (some m) p = refl

  read-other_partition :
      (p : ℤ) → eqb_ℤ partition p ≡ false → read (some changed) topic p ≡ read (some old) topic p
  unfolding changed set_offset
  read-other_partition p h =
      rw
        (
          find-put_same same same-IsEqual topic
              (put eqb_ℤ partition c (or_else (find same topic old.offsets) [])) old.offsets,
          find-put_other eqb_ℤ eqb_ℤ-IsEqual partition p c
              (or_else (find same topic old.offsets) []) h,
        )
        (parts-or_else (find same topic old.offsets) p)

  read-other :
      (t : List ℕ) (p : ℤ)
      → (topic ≡ t → partition ≢ p)
      → read (some changed) t p ≡ read (some old) t p
  read-other t p ne = elim (Bool-cases (same topic t)) [
    | inr away ↦ read-other_topic t p away
    | inl here ↦
        ap (λ x. read (some changed) x p) (sym (same_eq topic t here))
        ∙ read-other_partition p (eqb_ℤ_ne partition p (ne (same_eq topic t here)))
        ∙ ap (λ x. read (some old) x p) (same_eq topic t here)
  ]

  fetch-changed : (t : List ℕ) (p : ℤ) → fetch_offset committed group t p ≡ read (some changed) t p
  unfolding changed old
  fetch-changed t p =
      fetch-read committed group t p
      ∙ ap (λ o. read o t p) (find-put_same same same-IsEqual group changed s)

  -- Every other partition reads as before.
  fetch-other :
      (g t : List ℕ) (p : ℤ)
      → (group ≡ g → topic ≡ t → partition ≢ p)
      → fetch_offset committed g t p ≡ fetch_offset s g t p
  unfolding changed old
  fetch-other g t p ne = elim (Bool-cases (same group g)) [
    | inr away ↦
        fetch-read committed g t p
        ∙ ap (λ o. read o t p) (find-put_other same same-IsEqual group g changed s away)
        ∙ sym (fetch-read s g t p)
    | inl here ↦
        ap (λ x. fetch_offset committed x t p) (sym (same_eq group g here))
        ∙ fetch-changed t p
        ∙ read-other t p (ne (same_eq group g here))
        ∙ read-old t p
        ∙ sym (fetch-read s group t p)
        ∙ ap (λ x. fetch_offset s x t p) (same_eq group g here)
  ]

-- A commit under valid names reads back: the group's offset of the partition is the one committed,
-- with its epoch, its metadata and the time of the commit.
pub commit_offset-fetch_offset :
    (s : OffsetStore) (now : ℕ) (group topic : List ℕ) (partition offset leader_epoch : ℤ)
    (metadata : List ℕ)
    → validate_name group ≡ ok tt
    → validate_name topic ≡ ok tt
    → fetch_offset
        (commit_offset s now group topic partition offset leader_epoch metadata).0
        group
        topic
        partition
      ≡ record {
        offset = offset;
        leader_epoch = leader_epoch;
        metadata = metadata;
        commit_timestamp = now;
      }
unfolding commit_offset
commit_offset-fetch_offset s now group topic partition offset leader_epoch metadata vg vt =
    rw (commit_offset, vg, vt)
      (fetch-changed s now group topic partition _ topic partition
        ∙ read-new s now group topic partition _)

-- A commit, accepted or refused, changes the offset of no other group, topic or partition.
pub commit_offset-fetch_other :
    (s : OffsetStore) (now : ℕ) (group topic : List ℕ) (partition offset leader_epoch : ℤ)
    (metadata : List ℕ) (g t : List ℕ) (p : ℤ)
    → (group ≡ g → topic ≡ t → partition ≢ p)
    → fetch_offset (commit_offset s now group topic partition offset leader_epoch metadata).0 g t p
      ≡ fetch_offset s g t p
unfolding commit_offset
commit_offset-fetch_other s now group topic partition offset leader_epoch metadata g t p ne =
    elim (Result-cases (validate_name group)) [
      | inr (x, e) ↦ rw (commit_offset, e)
      | inl (u, e) ↦ elim (Result-cases (validate_name topic)) [
        | inr (x, e') ↦ rw (commit_offset, e, e')
        | inl (v, e') ↦
            rw (commit_offset, e, e') (fetch-other s now group topic partition _ g t p ne)
      ]
    ]
