-- ===== src/Tiering/Cache/Tests.antt =====
-- A put into a full cache, and a topic of the name of the directory of the tenants.
use mathlib.Core.List.{Perm}
use kafka_wire.Prelude.{ℕ, ◌≤◌, ◌⊎◌, ◌≡◌, refl, List, [], ◌∷◌}
use kafka_wire.Prelude.Int.{pos}
use kafka_wire.Prelude.Map.{same, put}
use kafka_wire.Prelude.Select.{filter}
use kafka_wire.Prelude.Sort.{insert_by, sort_by}
use kafka_wire.Tiering.Cache.{
  Cache, CachedFile, eqb_component, eqb_path, is_under, tenants, path_tenant, is_of_topic,
  drop_topic, size_bytes, is_young, evict_loop, evict_if_needed, put_tenant,
}
use kafka_wire.Tiering.Cache.Evict.{AllYoung, evict_if_needed_lem}

abbrev topic : List ℕ
topic = 116 ∷ []

abbrev tenant : List ℕ
tenant = 97 ∷ []

abbrev old_file : CachedFile
old_file = record { content = 1 ∷ 2 ∷ 3 ∷ []; used_at = 0 }

abbrev full : Cache
full = record { max_bytes = 4; files = (path_tenant tenant topic (pos 0) (pos 0), old_file) ∷ [] }

abbrev now : ℕ
now = 70000000000

-- The new segment stays, the old one goes.
put_evicts :
    (put_tenant (λ bytes. bytes) now full tenant topic (pos 0) (pos 3) (4 ∷ 5 ∷ []) []).0.files ≡ (
      (path_tenant tenant topic (pos 0) (pos 3), record { content = 4 ∷ 5 ∷ []; used_at = now })
      ∷ [])
unfolding put_tenant evict_if_needed size_bytes put eqb_path eqb_component path_tenant same
    evict_loop is_young sort_by insert_by
put_evicts = refl

-- Dropping a topic called "tenants" drops the segments of every tenant.
drops_tenants : (drop_topic tenants full).files ≡ []
unfolding drop_topic is_of_topic is_under path_tenant eqb_component same filter
drops_tenants = refl

evict_if_needed_lem_example :
    ((size_bytes (evict_if_needed now full).files ≤ 4)
      ⊎ AllYoung now 4 (evict_if_needed now full).files)
    × Perm
        (filter (is_young now) (evict_if_needed now full).files)
        (filter (is_young now) full.files)
evict_if_needed_lem_example = evict_if_needed_lem now full
