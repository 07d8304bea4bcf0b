-- ===== src/Tiering/Cache/Evict.antt =====
-- internal/tiering/cache.go: what an eviction takes.
use kafka_wire.Prelude.{
  ℕ, ◌+◌, ◌-◌, ◌≤◌, ◌≡◌, refl, ap, ◌∙◌, sym, ◌⊎◌, inl, inr, Bool, true, List, [], ◌∷◌, All, leb,
  ltb, Bool-cases, arith, subst,
}
use mathlib.Core.List.{Perm}
use mathlib.Core.List.Perm
use kafka_wire.Prelude.Select.{filter}
use kafka_wire.Prelude.Sort.{insert_by, sort_by}
use kafka_wire.Tiering.Cache.{
  Component, CachedFile, Files, Cache, size, size_bytes, is_young, evict_loop, oldest_first,
  evict_if_needed,
}

module _ (now max_bytes : ℕ) where
  -- The young files stay, in their order.
  evict_loop-young :
      (total : ℕ) (fs : Files)
      → filter (is_young now) (evict_loop now max_bytes total fs) ≡ filter (is_young now) fs
  unfolding evict_loop filter
  evict_loop-young total [] = refl
  evict_loop-young total (f ∷ fs) = elim (Bool-cases (leb total max_bytes)) [
    | inl e ↦ rw (evict_loop, e) refl
    | inr e ↦ elim (Bool-cases (is_young now f)) [
      | inl y ↦ rw (evict_loop, e, filter, y, y) (ap (λ t. f ∷ t) (evict_loop-young total fs))
      | inr y ↦ rw (evict_loop, e, y) (evict_loop-young (total - size f) fs)
    ]
  ]

  abbrev pub AllYoung : Files → Type 0
  AllYoung fs = All (λ f. is_young now f ≡ true) fs

  -- Beside `passed` bytes of young files that stay.
  evict_loop-size :
      (passed total : ℕ) (fs : Files)
      → total ≡ passed + size_bytes fs
      → (passed + size_bytes (evict_loop now max_bytes total fs) ≤ max_bytes)
        ⊎ AllYoung (evict_loop now max_bytes total fs)
  unfolding evict_loop size_bytes
  evict_loop-size passed total [] h = inr tt
  evict_loop-size passed total (f ∷ fs) h = elim (Bool-cases (leb total max_bytes)) [
    | inl e ↦ rw (evict_loop, e) (inl (ground (arith, h, e)))
    | inr e ↦ elim (Bool-cases (is_young now f)) [
      | inl y ↦ elim (evict_loop-size (passed + size f) total fs (omega (arith, h))) [
        | inl fits ↦ rw (evict_loop, e, y) (inl (omega (arith, fits)))
        | inr young ↦ rw (evict_loop, e, y) (inr (y, young))
      ]
      | inr y ↦
          rw (evict_loop, e, y) (evict_loop-size passed (total - size f) fs (omega (arith, h)))
    ]
  ]

  evict_loop-limit :
      (total : ℕ) (fs : Files)
      → total ≡ size_bytes fs
      → (size_bytes (evict_loop now max_bytes total fs) ≤ max_bytes)
        ⊎ AllYoung (evict_loop now max_bytes total fs)
  evict_loop-limit total fs h = elim (evict_loop-size 0 total fs (omega (arith, h))) [
    | inl fits ↦ inl (omega (arith, fits))
    | inr young ↦ inr young
  ]

module _ {A : Type 0} (lt : A → A → Bool) (p : A → Bool) where
  insert_by-filter : (x : A) (xs : List A) → Perm (filter p (insert_by lt x xs)) (filter p (x ∷ xs))
  unfolding insert_by filter
  insert_by-filter x [] = Perm.rfl
  insert_by-filter x (y ∷ ys) = elim (Bool-cases (lt y x)) [
    | inr e ↦ rw (insert_by, e) Perm.rfl
    | inl e ↦ elim (Bool-cases (p y)) [
      | inr n ↦ rw (insert_by, e, filter, n) (insert_by-filter x ys)
      | inl h ↦ elim (Bool-cases (p x)) [
        | inr n ↦
            rw (insert_by, e, filter, h, n)
              (Perm.cons y (rw (filter, n) at (insert_by-filter x ys)))
        | inl k ↦
            rw (insert_by, e, filter, h, k)
              (Perm.trans (Perm.cons y (rw (filter, k) at (insert_by-filter x ys)))
                (Perm.swap x y (filter p ys)))
      ]
    ]
  ]

  cons-filter :
      (x : A) (xs ys : List A)
      → Perm (filter p xs) (filter p ys)
      → Perm (filter p (x ∷ xs)) (filter p (x ∷ ys))
  unfolding filter
  cons-filter x xs ys h = elim (Bool-cases (p x)) [
    | inl k ↦ rw (filter, k) (Perm.cons x h)
    | inr n ↦ rw (filter, n) h
  ]

  sort_by-filter : (xs : List A) → Perm (filter p (sort_by lt xs)) (filter p xs)
  unfolding sort_by
  sort_by-filter [] = Perm.rfl
  sort_by-filter (x ∷ xs) =
      Perm.trans (insert_by-filter x (sort_by lt xs))
        (cons-filter x (sort_by lt xs) xs (sort_by-filter xs))

insert_by-size :
    (lt : List Component × CachedFile → List Component × CachedFile → Bool)
    (f : List Component × CachedFile) (fs : Files)
    → size_bytes (insert_by lt f fs) ≡ size f + size_bytes fs
unfolding insert_by size_bytes
insert_by-size lt f [] = refl
insert_by-size lt f (g ∷ fs) = elim (Bool-cases (lt g f)) [
  | inr e ↦ rw (insert_by, e) refl
  | inl e ↦ rw (insert_by, e) (omega (arith, insert_by-size lt f fs))
]

sort_by-size :
    (lt : List Component × CachedFile → List Component × CachedFile → Bool) (fs : Files)
    → size_bytes (sort_by lt fs) ≡ size_bytes fs
unfolding sort_by size_bytes
sort_by-size lt [] = refl
sort_by-size lt (f ∷ fs) =
    insert_by-size lt f (sort_by lt fs) ∙ ap (λ n. size f + n) (sort_by-size lt fs)

-- After an eviction the cache is within its limit, or has nothing but files that were used in the last 60
-- seconds; and no such file is taken.
pub evict_if_needed_lem :
    (now : ℕ) (c : Cache)
    → ((size_bytes (evict_if_needed now c).files ≤ c.max_bytes)
        ⊎ AllYoung now c.max_bytes (evict_if_needed now c).files)
      × Perm (filter (is_young now) (evict_if_needed now c).files) (filter (is_young now) c.files)
unfolding evict_if_needed
evict_if_needed_lem now c = elim (Bool-cases (leb (size_bytes c.files) c.max_bytes)) [
  | inl e ↦ rw (evict_if_needed, e) (inl (ground (arith, e)), Perm.rfl)
  | inr e ↦
      let sorted = oldest_first c.files in
      let total = size_bytes c.files in
      rw (evict_if_needed, e)
        (
          evict_loop-limit now c.max_bytes total sorted
              (sym (sort_by-size (λ x y. ltb x.1.used_at y.1.used_at) c.files)),
          subst (λ l. Perm l (filter (is_young now) c.files))
              (sym (evict_loop-young now c.max_bytes total sorted))
              (sort_by-filter (λ x y. ltb x.1.used_at y.1.used_at) (is_young now) c.files),
        )
]
