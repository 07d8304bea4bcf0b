-- ===== src/Storage/Retention/Archive.antt =====
-- With cold storage on, a sweep only deletes what the archive has.
use kafka_wire.Prelude.{
  ℕ, zero, suc, ◌-◌, ◌≡◌, refl, ◌∙◌, sym, subst, ◌⊎◌, inl, inr, Bool, true, ◌||◌, List, [], ◌∷◌,
  ◌++◌, some, All, length, take, drop, arith, Bool-cases,
}
use kafka_wire.Prelude.Int.{ℤ, pos, negsuc, ◌≤ℤ◌, ◌<ℤ◌, ltb_ℤ, leb_ℤ}
use kafka_wire.Storage.Segment.{Segment}
use kafka_wire.Storage.Log.{
  Log, active_segment, high_watermark, sealed_segments, delete_segments_before,
}
use kafka_wire.Storage.Log.Retention.{IsChain, Ends, delete_segments_before_lem}
use kafka_wire.Storage.Retention.{
  RetentionConfig, archived_prefix, deletable, age_cutoff, size_cutoff, total_bytes, sweep_cutoff,
  sweep_log,
}

-- Segments of a log in order: none of the sealed ones is empty, and no offset is negative.
abbrev pub IsForward : Segment → Type 0
IsForward s = (pos 0 ≤ℤ s.base_offset) × (s.base_offset <ℤ s.next_offset)

All-weaken {ℓ} :
    {A : Type ℓ} (P Q : A → Type 0) (xs : List A) → ((x : A) → P x → Q x) → All P xs → All Q xs
All-weaken P Q [] f h = tt
All-weaken P Q (x ∷ xs) f h = (f x h.0, All-weaken P Q xs f h.1)

abbrev Above : ℤ → Segment → Type 0
Above cutoff s = cutoff <ℤ s.next_offset

chain-Above :
    (s : Segment) (rest : List Segment)
    → IsChain (s ∷ rest)
    → All IsForward rest
    → All (Above s.next_offset) rest
unfolding IsChain
chain-Above s [] c f = tt
chain-Above s (t ∷ rest) c f = (
  ground (arith, c.0, f.0),
  All-weaken (Above t.next_offset) (Above s.next_offset) rest (λ x h. ground (arith, c.0, f.0))
      (chain-Above t rest c.1 f.1),
)

-- A cutoff below the end of every segment behind the first `n`.
abbrev Within : List Segment → ℕ → ℤ → Type 0
Within segs n cutoff = All (Above cutoff) (drop n segs)

IsChain-tail : (s : Segment) (rest : List Segment) → IsChain (s ∷ rest) → IsChain rest
unfolding IsChain
IsChain-tail s [] c = tt
IsChain-tail s (t ∷ rest) c = c.1

All-drop : (P : Segment → Type 0) (n : ℕ) (xs : List Segment) → All P xs → All P (drop n xs)
All-drop P zero xs h = h
All-drop P (suc n) [] h = tt
All-drop P (suc n) (x ∷ xs) h = All-drop P n xs h.1

front-Within :
    (segs : List Segment) (n : ℕ)
    → IsChain segs
    → All IsForward segs
    → All (λ s. Within segs n s.next_offset) (take n segs)
front-Within [] zero c f = tt
front-Within [] (suc n) c f = tt
front-Within (s ∷ rest) zero c f = tt
front-Within (s ∷ rest) (suc n) c f = (
  All-drop (Above s.next_offset) n rest (chain-Above s rest c f.1),
  front-Within rest n (IsChain-tail s rest c) f.1,
)

age_cutoff-keeps :
    (P : ℤ → Type 0) (retention_ms : ℤ) (now : ℕ) (segs : List Segment) (cutoff : ℤ)
    → All (λ s. P s.next_offset) segs
    → P cutoff
    → P (age_cutoff retention_ms now segs cutoff)
unfolding age_cutoff
age_cutoff-keeps P retention_ms now [] cutoff h p = p
age_cutoff-keeps P retention_ms now (s ∷ rest) cutoff h p =
    elim (Bool-cases
      (leb_ℤ retention_ms (pos 0) || leb_ℤ (pos (now - s.created_at)) retention_ms)) [
        | inl stop ↦ rw stop p
        | inr old ↦ rw old (age_cutoff-keeps P retention_ms now rest s.next_offset h.1 h.0)
      ]

size_cutoff-keeps :
    (P : ℤ → Type 0) (retention_bytes : ℤ) (segs : List Segment) (total : ℕ) (cutoff : ℤ)
    → All (λ s. P s.next_offset) segs
    → P cutoff
    → P (size_cutoff retention_bytes segs total cutoff)
unfolding size_cutoff
size_cutoff-keeps P retention_bytes [] total cutoff h p = p
size_cutoff-keeps P retention_bytes (s ∷ rest) total cutoff h p =
    elim (Bool-cases (ltb_ℤ retention_bytes (pos total))) [
      | inr fits ↦ rw fits p
      | inl over ↦ elim (Bool-cases (ltb_ℤ cutoff s.next_offset)) [
        | inl up ↦
            rw (over, up)
              (size_cutoff-keeps P retention_bytes rest (total - s.log_size) s.next_offset h.1 h.0)
        | inr same ↦
            rw (over, same)
              (size_cutoff-keeps P retention_bytes rest (total - s.log_size) cutoff h.1 p)
      ]
    ]

sweep_cutoff-Within :
    (cfg : RetentionConfig) (now : ℕ) (l : Log)
    → IsChain (sealed_segments l.segments)
    → All IsForward (sealed_segments l.segments)
    → Within
        (sealed_segments l.segments)
        (deletable cfg.archived (sealed_segments l.segments))
        (sweep_cutoff cfg now l)
unfolding sweep_cutoff
sweep_cutoff-Within cfg now l c f =
    let segs = sealed_segments l.segments in
    let n = deletable cfg.archived segs in
    let front = front-Within segs n c f in
    let start : Within segs n (negsuc 0) =
      All-drop (Above (negsuc 0)) n segs
        (All-weaken IsForward (Above (negsuc 0)) segs (λ x h. ground arith) f) in
    let by_age =
      age_cutoff-keeps (Within segs n) cfg.retention_ms now (take n segs) (negsuc 0) front start in
    elim (Bool-cases (ltb_ℤ (pos 0) cfg.retention_bytes)) [
      | inr off ↦ rw off by_age
      | inl on ↦ rw on (
          size_cutoff-keeps (Within segs n) cfg.retention_bytes (take n segs)
            (total_bytes l.segments) _ front by_age)
    ]

archived_front :
    (archived : Segment → Bool) (segs : List Segment)
    → All (λ s. archived s ≡ true) (take (archived_prefix archived segs) segs)
unfolding archived_prefix
archived_front archived [] = tt
archived_front archived (s ∷ rest) = elim (Bool-cases (archived s)) [
  | inl held ↦ rw held (held, archived_front archived rest)
  | inr missing ↦ rw missing tt
]

-- Those that end at a cutoff or below it are in the front part, if the rest ends above it.
ended_front :
    (P : Segment → Type 0) (segs : List Segment) (n : ℕ) (cutoff : ℤ)
    → All P (take n segs)
    → Within segs n cutoff
    → All (λ s. Ends cutoff s → P s) segs
ended_front P [] n cutoff p w = tt
ended_front P (s ∷ rest) zero cutoff p w =
    ((λ e. absurd (omega (arith, e, w.0))), ended_front P rest zero cutoff tt w.1)
ended_front P (s ∷ rest) (suc n) cutoff p w = ((λ e. p.0), ended_front P rest n cutoff p.1 w)

gone_front :
    (P : Segment → Type 0) (cutoff : ℤ) (gone kept : List Segment) (a : Segment)
    → active_segment kept ≡ some a
    → All (λ s. Ends cutoff s → P s) (sealed_segments (gone ++ kept))
    → All (Ends cutoff) gone
    → All P gone
unfolding sealed_segments active_segment
gone_front P cutoff [] kept a e h ends = tt
gone_front P cutoff (g ∷ []) [] a e h ends = absurd cc
gone_front P cutoff (g ∷ []) (k ∷ kept) a e h ends = (h.0 ends.0, tt)
gone_front P cutoff (g ∷ (g' ∷ gone)) kept a e h ends =
    (h.0 ends.0, gone_front P cutoff (g' ∷ gone) kept a e h.1 ends.1)

sealed-IsChain : (segs : List Segment) → IsChain segs → IsChain (sealed_segments segs)
unfolding sealed_segments IsChain
sealed-IsChain [] c = tt
sealed-IsChain (s ∷ []) c = tt
sealed-IsChain (s ∷ (t ∷ [])) c = tt
sealed-IsChain (s ∷ (t ∷ (u ∷ rest))) c = (c.0, sealed-IsChain (t ∷ (u ∷ rest)) c.1)

sweep_log-cases :
    (cfg : RetentionConfig) (now : ℕ) (l : Log)
    → (sweep_log cfg now l ≡ (l, 0))
      ⊎ (sweep_log cfg now l ≡ delete_segments_before l (sweep_cutoff cfg now l))
unfolding sweep_log
sweep_log-cases cfg now l = ground arith

abbrev pub IsSafe : (Segment → Bool) → Log → Log × ℕ → Type 0
IsSafe archived l (l', deleted) =
    (gone : List Segment) × (l.segments ≡ gone ++ l'.segments)
    × (length gone ≡ deleted)
    × All (λ s. archived s ≡ true) gone
    × (high_watermark l' ≡ high_watermark l)

-- A sweep while cold storage is on, of a log with an active segment, whose segments follow on one
-- another and whose sealed ones hold at least an offset each, none negative: what goes is a front part
-- of the segments, and the archive has every one of them, whatever the age and size limits are. The
-- high watermark is the old one.
pub sweep_log-IsSafe :
    (cfg : RetentionConfig) (now : ℕ) (l : Log) (archived : Segment → Bool) (a : Segment)
    → cfg.archived ≡ some archived
    → active_segment l.segments ≡ some a
    → IsChain l.segments
    → All IsForward (sealed_segments l.segments)
    → IsSafe archived l (sweep_log cfg now l)
unfolding deletable
sweep_log-IsSafe cfg now l archived a on e c f = elim (sweep_log-cases cfg now l) [
  | inl p ↦ subst (IsSafe archived l) (sym p) ([], refl, refl, tt, refl)
  | inr p ↦
      let segs = sealed_segments l.segments in
      let cutoff = sweep_cutoff cfg now l in
      let ((gone, whole, count, ends, active, cut), hwm, start) =
        delete_segments_before_lem l cutoff a c e in
      let within : Within segs (archived_prefix archived segs) cutoff =
        subst (λ o. Within segs (deletable o segs) cutoff) on
          (sweep_cutoff-Within cfg now l (sealed-IsChain l.segments c) f) in
      let held =
        ended_front (λ s. archived s ≡ true) segs (archived_prefix archived segs) cutoff
          (archived_front archived segs) within in
      subst (IsSafe archived l) (sym p) (
        gone,
        whole,
        count,
        gone_front (λ s. archived s ≡ true) cutoff gone (delete_segments_before l cutoff).0.segments
            a (active ∙ e)
            (subst (λ t. All (λ s. Ends cutoff s → archived s ≡ true) (sealed_segments t)) whole
              held)
            ends,
        hwm,
      )
]
