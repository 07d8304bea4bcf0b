-- ===== src/Broker/Topics/Archive.antt =====
-- internal/broker/restore_fetch.go: a fetch below the local log. The restorer and the cache are a function
-- that gives the bytes of an archived segment, or none when the segment cannot be restored or opened.
use kafka_wire.Prelude.{
  ℕ, zero, suc, ◌+◌, not, ◌&&◌, List, [], ◌∷◌, ◌++◌, Option, none, some, length, drop, slice, ltb,
  ◌==◌, if◌then◌else◌,
}
use kafka_wire.Prelude.Result.{Result, ok, err}
use kafka_wire.Prelude.Int.{ℤ, pos, leb_ℤ}
use kafka_wire.Prelude.Map.{same}
use kafka_wire.Storage.Record.{parse_batch_header, batch_size, last_offset}
use kafka_wire.Storage.Batches.{trim_to_batch_boundary}
use kafka_wire.Storage.Log.{LogError}
use kafka_wire.Tiering.Manifest.{Manifest, SegmentEntry, find_archived}
use kafka_wire.Broker.Topics.{BrokerError}
use kafka_wire.Broker.Topics.BrokerError.{unauthorized_topic, restore_failed, log_failed, bad_batch}

abbrev pub out_of_range : BrokerError
out_of_range = log_failed LogError.offset_out_of_range

-- The scan for the batch with the offset: at `position` of the segment, with what the header buffer held
-- before, of which a short read leaves the end. None at the end of the segment.
unfoldable pub scan_loop : ℕ → List ℕ → ℤ → ℕ → List ℕ → Result BrokerError (Option ℕ)
scan_loop zero segment offset position old = ok none
scan_loop (suc fuel) segment offset position old =
    let read = slice position (position + 61) segment in
    let header = read ++ drop (length read) old in
    if ltb position (length segment)
    then elim (parse_batch_header header) [
      | err e ↦ err (bad_batch e)
      | ok h ↦
          let later = scan_loop fuel segment offset (position + batch_size h) header in
          if leb_ℤ h.base_offset offset && leb_ℤ offset (last_offset h)
          then ok (some position)
          else later
    ]
    else ok none

unfoldable pub zeros : ℕ → List ℕ
zeros zero = []
zeros (suc n) = 0 ∷ zeros n

-- Batches are 61 bytes long at least, so the length of the segment is fuel enough.
unfoldable pub scan : List ℕ → ℤ → Result BrokerError (Option ℕ)
scan segment offset = scan_loop (length segment) segment offset 0 (zeros 61)

-- The batches from `start` on: whole ones, or else the first in full.
unfoldable pub read_archived : List ℕ → ℕ → ℕ → Result BrokerError (List ℕ × ℤ)
read_archived segment start max_bytes =
    let buf = slice start (start + max_bytes) segment in
    elim (trim_to_batch_boundary buf) [
      | [] ↦ elim (parse_batch_header buf) [
        | err e ↦ err (bad_batch e)
        | ok h ↦
            if ltb (length segment) (start + batch_size h)
            then err out_of_range
            else ok (slice start (start + batch_size h) segment, h.base_offset)
      ]
      | y ∷ ys ↦ elim (parse_batch_header (y ∷ ys)) [
        | err e ↦ ok (y ∷ ys, pos 0)
        | ok h ↦ ok (y ∷ ys, h.base_offset)
      ]
    ]

unfoldable pub fetch_from_archive :
    Option Manifest
    → (SegmentEntry → Option (List ℕ))
    → List ℕ
    → ℤ
    → ℤ
    → ℕ
    → List ℕ
    → Result BrokerError (List ℕ × ℤ)
fetch_from_archive archive restore topic partition offset max_bytes requester = elim archive [
  | none ↦ err out_of_range
  | some m ↦ elim (find_archived m topic partition offset) [
    | none ↦ err out_of_range
    | some e ↦
        if not (length requester == 0) && not (same e.tenant_id requester)
        then err unauthorized_topic
        else elim (restore e) [
          | none ↦ err restore_failed
          | some segment ↦ elim (scan segment offset) [
            | err x ↦ err x
            | ok found ↦ elim found [
              | none ↦ err out_of_range
              | some start ↦ read_archived segment start max_bytes
            ]
          ]
        ]
  ]
]
