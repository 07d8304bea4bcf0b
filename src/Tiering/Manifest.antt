-- ===== src/Tiering/Manifest.antt =====
-- internal/tiering/manifest.go: which segments the archive has, and which uploads are under way. Strings
-- are lists of bytes. Writing the two JSON files back succeeds and changes nothing in the model.
pub mod Disjoint
pub mod Forget
mod Tests
use kafka_wire.Prelude.{
  ℕ, Bool, true, false, not, ◌&&◌, ◌||◌, List, [], ◌∷◌, ◌++◌, Option, none, some, ◌==◌, leb,
  if◌then◌else◌,
}
use kafka_wire.Prelude.Int.{ℤ, ltb_ℤ, leb_ℤ, eqb_ℤ}
use kafka_wire.Prelude.Select.{filter, first}
use kafka_wire.Prelude.Map.{same, find, put, remove}

pub record SegmentEntry : Type 0 where
  pub topic : List ℕ
  pub partition : ℤ
  pub base_offset : ℤ
  pub next_offset : ℤ
  pub size_bytes : ℤ
  pub sha256 : List ℕ
  pub s3_key : List ℕ
  pub uploaded_at : ℕ
  pub tenant_id : List ℕ
  pub hmac_signature : List ℕ

pub record PendingUploadPart : Type 0 where
  pub part_number : ℤ
  pub etag : List ℕ
  pub size_bytes : ℤ

pub record PendingUpload : Type 0 where
  pub topic : List ℕ
  pub partition : ℤ
  pub base_offset : ℤ
  pub next_offset : ℤ
  pub tenant_id : List ℕ
  pub sha256 : List ℕ
  pub s3_key : List ℕ
  pub upload_id : List ℕ
  pub parts : List PendingUploadPart
  pub started_at : ℕ

pub record Manifest : Type 0 where
  pub completed : List SegmentEntry
  pub pending : List (List ℕ × PendingUpload)

-- The test of the loop in `AddCompleted`: whether an old entry stays beside the new one.
unfoldable pub stays : SegmentEntry → SegmentEntry → Bool
stays e old =
    let same_partition = same old.topic e.topic && eqb_ℤ old.partition e.partition in
    let overlaps = ltb_ℤ old.base_offset e.next_offset && ltb_ℤ e.base_offset old.next_offset in
    not same_partition || (not overlaps && not (eqb_ℤ old.base_offset e.base_offset))

unfoldable pub add_completed : Manifest → SegmentEntry → Manifest
add_completed m e = record {
  completed = filter (stays e) m.completed ++ (e ∷ []);
  pending = remove same e.s3_key m.pending;
}

unfoldable pub set_pending : Manifest → PendingUpload → Manifest
set_pending m p = record m { pending = put same p.s3_key p m.pending }

unfoldable pub get_pending : Manifest → List ℕ → Option PendingUpload
get_pending m s3_key = find same s3_key m.pending

unfoldable pub abort_pending : Manifest → List ℕ → Manifest
abort_pending m s3_key = record m { pending = remove same s3_key m.pending }

unfoldable pub is_at : List ℕ → ℤ → ℤ → SegmentEntry → Bool
is_at topic partition base_offset e =
    same e.topic topic && (eqb_ℤ e.partition partition && eqb_ℤ e.base_offset base_offset)

unfoldable pub lookup : Manifest → List ℕ → ℤ → ℤ → Option SegmentEntry
lookup m topic partition base_offset = first (is_at topic partition base_offset) m.completed

unfoldable pub holds : Manifest → List ℕ → ℤ → ℤ → ℤ → ℤ → Bool
holds m topic partition base_offset next_offset size_bytes =
    elim (lookup m topic partition base_offset) [
      | none ↦ false
      | some e ↦ leb_ℤ next_offset e.next_offset && leb_ℤ size_bytes e.size_bytes
    ]

unfoldable pub forget_topic : Manifest → List ℕ → Manifest
forget_topic m topic = record {
  completed = filter (λ e. not (same e.topic topic)) m.completed;
  pending = filter (λ p. not (same p.1.topic topic)) m.pending;
}

unfoldable pub all_for_topic : Manifest → List ℕ → List SegmentEntry
all_for_topic m topic = filter (λ e. same e.topic topic) m.completed

-- The search of `Broker.fetchFromArchive` (internal/broker/restore_fetch.go) for the segment that has
-- an offset.
unfoldable pub covers : ℤ → ℤ → SegmentEntry → Bool
covers partition offset e =
    eqb_ℤ e.partition partition && (leb_ℤ e.base_offset offset && ltb_ℤ offset e.next_offset)

unfoldable pub find_archived : Manifest → List ℕ → ℤ → ℤ → Option SegmentEntry
find_archived m topic partition offset = first (covers partition offset) (all_for_topic m topic)
