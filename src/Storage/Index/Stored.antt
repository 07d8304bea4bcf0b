-- ===== src/Storage/Index/Stored.antt =====
-- The index file holds the entries in memory, and loading it gives them back.
use kafka_wire.Prelude.{
  ℕ, ◌-◌, ◌*◌, ◌/◌, ◌%◌, ◌^◌, ◌<◌, ◌≡◌, refl, ap, ◌∙◌, sym, inl, inr, List, [], ◌∷◌, ◌++◌, All,
  length, take, slice, last_or, last_or-snoc, arith, length-append, append-nil, append_assoc,
  take-append, drop-append, All-append,
}
use kafka_wire.Prelude.Result.{ok}
use kafka_wire.Prelude.Int.{ℤ}
use kafka_wire.Prelude.Bytes.{be_uint, put_be, length-put_be, be_uint-put_be}
use kafka_wire.Storage.File.{write-end, truncate}
use kafka_wire.Storage.Index.Lookup.{entry_of, grown, maybe_append_cases}
use kafka_wire.Storage.Index.{
  Index, IndexEntry, first_entry, read_entries, open_index, entry_bytes, maybe_append,
}

abbrev pub InRange : IndexEntry → Type 0
InRange e = (e.rel_offset < 2 ^ 32) × (e.position < 2 ^ 32)

abbrev pub file_bytes : List IndexEntry → List ℕ
file_bytes [] = []
file_bytes (e ∷ es) = entry_bytes e ++ file_bytes es

pub record IsStored (i : Index) : Type 0 where
  pub in_range : All InRange i.entries
  pub written : i.file.content ≡ file_bytes i.entries
  pub at_end : i.file.cursor ≡ length i.file.content
  pub last : i.last_indexed_pos ≡ (last_or first_entry i.entries).position

length-entry_bytes : (e : IndexEntry) → length (entry_bytes e) ≡ 8
unfolding entry_bytes
length-entry_bytes e = omega (
  arith,
  length-append (put_be 4 e.rel_offset) (put_be 4 e.position),
  length-put_be 4 e.rel_offset,
  length-put_be 4 e.position,
)

length-file_bytes : (es : List IndexEntry) → length (file_bytes es) ≡ 8 * length es
length-file_bytes [] = refl
length-file_bytes (e ∷ es) = omega (
  arith,
  length-append (entry_bytes e) (file_bytes es),
  length-entry_bytes e,
  length-file_bytes es,
)

file_bytes-snoc :
    (es : List IndexEntry) (e : IndexEntry)
    → file_bytes (es ++ (e ∷ [])) ≡ file_bytes es ++ entry_bytes e
file_bytes-snoc [] e = append-nil (entry_bytes e)
file_bytes-snoc (x ∷ es) e =
    ap (λ t. entry_bytes x ++ t) (file_bytes-snoc es e)
    ∙ sym (append_assoc (entry_bytes x) (file_bytes es) (entry_bytes e))

module _ (e : IndexEntry) (rest : List ℕ) (h : InRange e) where
  read_rel : be_uint (slice 0 4 (entry_bytes e ++ rest)) ≡ e.rel_offset
  unfolding entry_bytes
  read_rel =
      ap be_uint (
        ap (slice 0 4) (append_assoc (put_be 4 e.rel_offset) (put_be 4 e.position) rest)
        ∙ take-append 4 (put_be 4 e.rel_offset) _ (length-put_be 4 e.rel_offset))
      ∙ be_uint-put_be 4 e.rel_offset (omega arith)

  read_position : be_uint (slice 4 8 (entry_bytes e ++ rest)) ≡ e.position
  unfolding entry_bytes
  read_position =
      ap be_uint (
        ap (slice 4 8) (append_assoc (put_be 4 e.rel_offset) (put_be 4 e.position) rest)
        ∙ ap (take 4) (drop-append 4 (put_be 4 e.rel_offset) _ (length-put_be 4 e.rel_offset))
        ∙ take-append 4 (put_be 4 e.position) rest (length-put_be 4 e.position))
      ∙ be_uint-put_be 4 e.position (omega arith)

read_entries-file_bytes :
    (es : List IndexEntry) → All InRange es → read_entries (length es) (file_bytes es) ≡ es
unfolding read_entries
read_entries-file_bytes [] h = refl
read_entries-file_bytes (e ∷ es) h = cc (
  read_rel e (file_bytes es) h.0,
  read_position e (file_bytes es) h.0,
  ap (read_entries (length es))
      (drop-append 8 (entry_bytes e) (file_bytes es) (length-entry_bytes e)),
  read_entries-file_bytes es h.1,
)

-- An index whose file holds its entries is read back from that file, also with up to 7 bytes of a
-- partial entry at the end, which are cut off.
pub open_index-torn :
    (i : Index) (torn : List ℕ)
    → IsStored i
    → length torn < 8
    → let opened = open_index (i.file.content ++ torn) i.interval in
      (opened.entries ≡ i.entries)
      × (opened.last_indexed_pos ≡ i.last_indexed_pos)
      × (opened.file.content ≡ i.file.content)
unfolding open_index truncate
open_index-torn i torn s short =
    rw (aligned, counted, cut) (restored, rw restored (sym s.last), refl)
  where
    aligned :
        length (i.file.content ++ torn) - length (i.file.content ++ torn) % 8
        ≡ length i.file.content
    aligned =
        omega (
          arith,
          length-append i.file.content torn,
          ap length s.written,
          length-file_bytes i.entries,
        )

    counted : length i.file.content / 8 ≡ length i.entries
    counted = omega (arith, ap length s.written, length-file_bytes i.entries)

    cut : take (length i.file.content) (i.file.content ++ torn) ≡ i.file.content
    cut = take-append (length i.file.content) i.file.content torn refl

    restored : read_entries (length i.entries) i.file.content ≡ i.entries
    restored =
        ap (read_entries (length i.entries)) s.written
        ∙ read_entries-file_bytes i.entries s.in_range

grown-IsStored :
    (i : Index) (r position : ℕ)
    → r < 2 ^ 32
    → position < 2 ^ 32
    → IsStored i
    → IsStored (grown i r position)
grown-IsStored i r position hr hp s = record {
  in_range = All-append InRange i.entries (entry_of r position ∷ []) s.in_range ((hr, hp), tt);
  written =
      rw (write-end i.file (entry_bytes (entry_of r position)) s.at_end, s.written)
        (sym (file_bytes-snoc i.entries (entry_of r position)));
  at_end = rw (write-end i.file (entry_bytes (entry_of r position)) s.at_end);
  last = rw (last_or-snoc first_entry i.entries (entry_of r position));
}

-- Every successful append keeps the file and the entries in memory together.
pub maybe_append-IsStored :
    (i i' : Index) (rel_offset : ℤ) (position : ℕ)
    → maybe_append i rel_offset position ≡ ok i'
    → IsStored i
    → IsStored i'
maybe_append-IsStored i i' rel_offset position e s =
    elim (maybe_append_cases i i' rel_offset position e) [
      | inl same ↦ rw same s
      | inr (r, _, hr, hp, shape) ↦ rw shape (grown-IsStored i r position hr hp s)
    ]
