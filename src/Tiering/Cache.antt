-- ===== src/Tiering/Cache.antt =====
-- internal/tiering/cache.go: the restored segments on disk. A path is the list of its components below the
-- directory of the cache, the cache its `.log` files with the times they were used; the order in which a
-- walk lists them is the list's. `sha256` gives the digest in hexadecimal. File operations succeed.
pub mod Evict
mod Tests
use kafka_wire.Prelude.{
  ℕ, ◌+◌, ◌-◌, Bool, true, false, not, ◌&&◌, ◌||◌, List, [], ◌∷◌, ◌++◌, Option, none, some, map,
  length, ltb, leb, ◌==◌, if◌then◌else◌,
}
use kafka_wire.Prelude.Result.{Result, ok, err}
use kafka_wire.Prelude.Int.{ℤ, eqb_ℤ}
use kafka_wire.Prelude.Map.{same, find, put, has}
use kafka_wire.Prelude.Select.{filter}
use kafka_wire.Prelude.Sort.{sort_by}

-- A name, a partition's number, and the file name of a base offset.
pub data Component : Type 0 where
  name : List ℕ → Component
  number : ℤ → Component
  log_file : ℤ → Component

unfoldable pub eqb_component : Component → Component → Bool
eqb_component (name x) (name y) = same x y
eqb_component (number x) (number y) = eqb_ℤ x y
eqb_component (log_file x) (log_file y) = eqb_ℤ x y
eqb_component x y = false

unfoldable pub eqb_path : List Component → List Component → Bool
eqb_path [] [] = true
eqb_path [] (y ∷ ys) = false
eqb_path (x ∷ xs) [] = false
eqb_path (x ∷ xs) (y ∷ ys) = eqb_component x y && eqb_path xs ys

unfoldable pub is_under : List Component → List Component → Bool
is_under [] path = true
is_under (x ∷ dir) [] = false
is_under (x ∷ dir) (y ∷ path) = eqb_component x y && is_under dir path

pub record CachedFile : Type 0 where
  pub content : List ℕ
  pub used_at : ℕ

abbrev pub Files : Type 0
Files = List (List Component × CachedFile)

pub record Cache : Type 0 where
  pub max_bytes : ℕ
  pub files : Files

-- "tenants"
abbrev pub tenants : List ℕ
tenants = 116 ∷ 101 ∷ 110 ∷ 97 ∷ 110 ∷ 116 ∷ 115 ∷ []

unfoldable pub path_tenant : List ℕ → List ℕ → ℤ → ℤ → List Component
path_tenant tenant topic partition base_offset =
    let below = name topic ∷ number partition ∷ log_file base_offset ∷ [] in
    if length tenant == 0 then below else name tenants ∷ name tenant ∷ below

-- `<cache>/<topic>`, and `<cache>/tenants/<tenant>/<topic>` for every tenant there.
unfoldable pub is_of_topic : List ℕ → List Component → Bool
is_of_topic topic path = is_under (name topic ∷ []) path || elim path [
  | [] ↦ false
  | x ∷ xs ↦ elim xs [
    | [] ↦ false
    | y ∷ below ↦ eqb_component x (name tenants) && is_under (name topic ∷ []) below
  ]
]

unfoldable pub drop_topic : List ℕ → Cache → Cache
drop_topic topic c = record c { files = filter (λ f. not (is_of_topic topic f.0)) c.files }

unfoldable pub has_tenant : Cache → List ℕ → List ℕ → ℤ → ℤ → Bool
has_tenant c tenant topic partition base_offset =
    has eqb_path (path_tenant tenant topic partition base_offset) c.files

abbrev pub size : List Component × CachedFile → ℕ
size f = length f.1.content

unfoldable pub size_bytes : Files → ℕ
size_bytes [] = 0
size_bytes (f ∷ fs) = size f + size_bytes fs

abbrev pub eviction_grace : ℕ
eviction_grace = 60000000000

-- Used after the start of the grace window.
unfoldable pub is_young : ℕ → List Component × CachedFile → Bool
is_young now f = ltb now (f.1.used_at + eviction_grace)

-- The loop over the files, oldest first, with those that stay.
unfoldable pub evict_loop : ℕ → ℕ → ℕ → Files → Files
evict_loop now max_bytes total [] = []
evict_loop now max_bytes total (f ∷ fs) =
    let passed = evict_loop now max_bytes total fs in
    let removed = evict_loop now max_bytes (total - size f) fs in
    if leb total max_bytes then f ∷ fs else if is_young now f then f ∷ passed else removed

abbrev pub oldest_first : Files → Files
oldest_first files = sort_by (λ x y. ltb x.1.used_at y.1.used_at) files

unfoldable pub evict_if_needed : ℕ → Cache → Cache
evict_if_needed now c =
    if leb (size_bytes c.files) c.max_bytes
    then c
    else record c { files = evict_loop now c.max_bytes (size_bytes c.files) (oldest_first c.files) }

pub data CacheError : Type 0 where
  digest_mismatch not_cached : CacheError

-- `PutTenant`; `PutTenantStream` comes to the same for the bytes that it reads.
unfoldable pub put_tenant :
    (List ℕ → List ℕ)
    → ℕ
    → Cache
    → List ℕ
    → List ℕ
    → ℤ
    → ℤ
    → List ℕ
    → List ℕ
    → Cache × Result CacheError (Unit {0})
put_tenant sha256 now c tenant topic partition base_offset bytes expected =
    let path = path_tenant tenant topic partition base_offset in
    let file : CachedFile = record { content = bytes; used_at = now } in
    if not (length expected == 0) && not (same (sha256 bytes) expected)
    then (c, err digest_mismatch)
    else (evict_if_needed now (record c { files = put eqb_path path file c.files }), ok tt)

-- Opening a segment counts as a use.
unfoldable pub open_tenant :
    ℕ → Cache → List ℕ → List ℕ → ℤ → ℤ → Cache × Result CacheError (List ℕ)
open_tenant now c tenant topic partition base_offset =
    let path = path_tenant tenant topic partition base_offset in
    elim (find eqb_path path c.files) [
      | none ↦ (c, err not_cached)
      | some f ↦ (
        record c { files = put eqb_path path (record f { used_at = now }) c.files },
        ok f.content,
      )
    ]
