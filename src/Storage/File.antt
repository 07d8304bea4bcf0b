-- ===== src/Storage/File.antt =====
-- The operations of os.File that the storage engine uses: a file is its bytes and the position that
-- `Write` writes at. Every call succeeds; a crash is modelled where a file is opened again.
use kafka_wire.Prelude.{
  ℕ, ◌+◌, List, ◌++◌, length, take, drop, take-all, drop-all, append-nil, length-append, ap, ◌≡◌,
  arith,
}

pub record File : Type 0 where
  pub content : List ℕ
  pub cursor : ℕ

-- A file as `os.OpenFile` returns it.
abbrev pub open_file : List ℕ → File
open_file bytes = record { content = bytes; cursor = 0 }

unfoldable pub write : File → List ℕ → File
write f bytes = record {
  content = take f.cursor f.content ++ (bytes ++ drop (f.cursor + length bytes) f.content);
  cursor = f.cursor + length bytes;
}

-- `Truncate(n)` to at most the present size; the position stays.
unfoldable pub truncate : File → ℕ → File
truncate f n = record f { content = take n f.content }

-- `Seek(n, io.SeekStart)`
unfoldable pub seek : File → ℕ → File
seek f n = record f { cursor = n }

-- A write at the end appends.
pub write-end :
    (f : File) (bytes : List ℕ)
    → f.cursor ≡ length f.content
    → write f bytes ≡ record { content = f.content ++ bytes; cursor = length (f.content ++ bytes) }
unfolding write
write-end f bytes e = cc (
  take-all f.cursor f.content (omega arith),
  ap (λ t. f.content ++ (bytes ++ t)) (drop-all (f.cursor + length bytes) f.content (omega arith)),
  ap (λ t. f.content ++ t) (append-nil bytes),
  length-append f.content bytes,
  ap (λ n. n + length bytes) e,
)
