-- ===== src/Webhook/Replay.antt =====
-- internal/webhook/forwarder.go: no dead letter is lost by a redelivery.
use kafka_wire.Prelude.{
  ℕ, suc, ◌+◌, ◌≡◌, refl, ap, ◌∙◌, sym, inl, inr, Bool, true, false, List, [], ◌∷◌, ◌++◌, Option,
  none, some, All, Bool-cases, Option-cases, append-nil, subst,
}
use mathlib.Core.Path.{Path}
use kafka_wire.Webhook.Dlq.{
  Queue, Outcome, split_lines, contents, is_blank, records_of, fold_back, claim_file, replay,
  join_lines, finish,
}
use kafka_wire.Webhook.Dlq.Outcome.{unparseable, delivered, failed}
use kafka_wire.Webhook.Lines.{
  lines_of, TrimsBlanks, IsWhole, append_raw-lines, lines_of-nil, lines_of-newline,
}

-- What has become of each line, in order: it was delivered, it is kept as it is, or it is kept as it was
-- written anew after a failure. The number counts those delivered.
pub data Accounts (outcome : ℕ → List ℕ → Outcome)
    : List (List ℕ) → List (List ℕ) → ℕ → Type 0 where
  done : Accounts outcome [] [] 0
  sent :
      {ls ks : List (List ℕ)} {n : ℕ} (i : ℕ) (l : List ℕ)
      → outcome i l ≡ delivered
      → Accounts outcome ls ks n
      → Accounts outcome (l ∷ ls) ks (n + 1)
  held :
      {ls ks : List (List ℕ)} {n : ℕ} (l : List ℕ)
      → Accounts outcome ls ks n
      → Accounts outcome (l ∷ ls) (l ∷ ks) n
  rewritten :
      {ls ks : List (List ℕ)} {n : ℕ} (i : ℕ) (l anew : List ℕ)
      → outcome i l ≡ failed (some anew)
      → Accounts outcome ls ks n
      → Accounts outcome (l ∷ ls) (anew ∷ ks) n

module _ (trim : List ℕ → List ℕ) (cancelled : ℕ → Bool) (outcome : ℕ → List ℕ → Outcome) where
  all_held : (ls : List (List ℕ)) → Accounts outcome ls ls 0
  all_held [] = Accounts.done
  all_held (l ∷ ls) = Accounts.held l (all_held ls)

  -- What one line comes to, in the loop.
  line-Accounts :
      (i : ℕ) (l : List ℕ) (o : Outcome) (ls ks : List (List ℕ)) (n : ℕ)
      → outcome i l ≡ o
      → Accounts outcome ls ks n
      → let r : List (List ℕ) × ℕ = elim o [
        | unparseable ↦ (l ∷ ks, n)
        | delivered ↦ (ks, n + 1)
        | failed written ↦ elim written [ none ↦ (l ∷ ks, n) | some anew ↦ (anew ∷ ks, n) ]
      ] in
        Accounts outcome (l ∷ ls) r.0 r.1
  line-Accounts i l unparseable ls ks n e a = Accounts.held l a
  line-Accounts i l delivered ls ks n e a = Accounts.sent i l e a
  line-Accounts i l (failed none) ls ks n e a = Accounts.held l a
  line-Accounts i l (failed (some anew)) ls ks n e a = Accounts.rewritten i l anew e a

  pub replay-Accounts :
      (i : ℕ) (lines : List (List ℕ))
      → Accounts outcome
          (records_of trim lines)
          (replay trim cancelled outcome i lines).0
          (replay trim cancelled outcome i lines).1
  unfolding replay records_of
  replay-Accounts i [] = Accounts.done
  replay-Accounts i (line ∷ lines) = elim (Bool-cases (is_blank trim line)) [
    | inl e ↦ rw (replay, records_of, e) (replay-Accounts (suc i) lines)
    | inr e ↦ elim (Bool-cases (cancelled i)) [
      | inl stop ↦ rw (replay, records_of, e, stop) (all_held (trim line ∷ records_of trim lines))
      | inr on ↦
          rw (replay, records_of, e, on)
            (line-Accounts i (trim line) (outcome i (trim line)) (records_of trim lines)
              (replay trim cancelled outcome (suc i) lines).0
              (replay trim cancelled outcome (suc i) lines).1 refl (replay-Accounts (suc i) lines))
    ]
  ]

refused : {a b : Queue} → Path (Queue × Bool) (a, false) (b, true) → ⊥
refused h = cc h

-- All records of the two files.
abbrev pub records : (List ℕ → List ℕ) → Queue → List (List ℕ)
records trim q = lines_of trim (contents q.file) ++ lines_of trim (contents q.claim)

module _ (trim : List ℕ → List ℕ) (law : TrimsBlanks trim) where
  fold_back-lines :
      (q : Queue)
      → IsWhole (contents q.file)
      → lines_of trim (contents (fold_back trim q).file) ≡ records trim q
  unfolding fold_back
  fold_back-lines q whole = elim (Option-cases q.claim) [
    | inl e ↦
        rw (fold_back, e)
          (sym (append-nil (lines_of trim (contents q.file)))
            ∙ ap (λ t. lines_of trim (contents q.file) ++ t) (sym (lines_of-nil trim law)))
    | inr (leftover, e) ↦ rw (fold_back, e) (append_raw-lines trim law q.file leftover whole)
  ]

  claimed :
      (q c : Queue)
      → claim_file trim q ≡ (c, true)
      → some (contents c.claim) ≡ (fold_back trim q).file
  unfolding claim_file fold_back
  claimed q c h = elim (Bool-cases q.busy) [
    | inl e ↦ absurd (refused (rw (claim_file, e) at h))
    | inr e ↦ elim (Option-cases (fold_back trim q).file) [
      | inl n ↦ absurd (refused (rw (claim_file, e, n) at h))
      | inr (bytes, s) ↦
          ap (λ p. some (contents p.0.claim)) (sym (rw (claim_file, e, s) at h)) ∙ sym s
    ]
  ]

  -- With the claim taken, everything is in the claimed file.
  claim_file-lines :
      (q c : Queue)
      → IsWhole (contents q.file)
      → claim_file trim q ≡ (c, true)
      → lines_of trim (contents c.claim) ≡ records trim q
  claim_file-lines q c whole h =
      ap (λ f. lines_of trim (contents f)) (claimed q c h) ∙ fold_back-lines q whole

  join_lines-lines :
      (kept : List (List ℕ))
      → All (λ k. lines_of trim k ≡ k ∷ []) kept
      → lines_of trim (join_lines kept) ≡ kept
  unfolding join_lines
  join_lines-lines [] h = lines_of-nil trim law
  join_lines-lines (k ∷ ks) h =
      lines_of-newline trim k (join_lines ks)
      ∙ ap (λ t. t ++ lines_of trim (join_lines ks)) h.0
      ∙ ap (λ t. k ∷ t) (join_lines-lines ks h.1)

  finish-lines :
      (kept : List (List ℕ)) (q : Queue)
      → IsWhole (contents q.file)
      → All (λ k. lines_of trim k ≡ k ∷ []) kept
      → lines_of trim (contents (finish trim kept q).file) ≡ lines_of trim (contents q.file) ++ kept
  unfolding finish
  finish-lines [] q whole h = sym (append-nil (lines_of trim (contents q.file)))
  finish-lines (k ∷ ks) q whole h =
      append_raw-lines trim law q.file (join_lines (k ∷ ks)) whole
      ∙ ap (λ t. lines_of trim (contents q.file) ++ t) (join_lines-lines (k ∷ ks) h)

-- A redelivery that has claimed a file that ends with its last line, a claim left over from a crash
-- before it included. The claimed file has all records of both. Each of them is delivered, or it is
-- kept, as it is or as it was written anew after a failure, also if the redelivery is cancelled.
-- And if the kept lines are one record each, at the end the file has them behind whatever whole
-- lines it has by then. Of TrimSpace this uses that of white space nothing is left and of its lines
-- neither.
pub redeliver-Accounts :
    (trim : List ℕ → List ℕ) (cancelled : ℕ → Bool) (outcome : ℕ → List ℕ → Outcome) (q c : Queue)
    (later : Option (List ℕ)) (kept : List (List ℕ)) (n : ℕ)
    → TrimsBlanks trim
    → IsWhole (contents q.file)
    → claim_file trim q ≡ (c, true)
    → replay trim cancelled outcome 0 (split_lines (contents c.claim)) ≡ (kept, n)
    → IsWhole (contents later)
    → All (λ k. lines_of trim k ≡ k ∷ []) kept
    → (lines_of trim (contents c.claim) ≡ records trim q)
      × Accounts outcome (records trim q) kept n
      × (lines_of trim (contents (finish trim kept (record c { file = later })).file)
          ≡ lines_of trim (contents later) ++ kept)
redeliver-Accounts trim cancelled outcome q c later kept n law whole claim run ended clean =
    let all = claim_file-lines trim law q c whole claim in
    (
      all,
      subst (λ ls. Accounts outcome ls kept n) all
          (subst
            (λ (r : List (List ℕ) × ℕ). Accounts outcome (lines_of trim (contents c.claim)) r.0 r.1)
            run (replay-Accounts trim cancelled outcome 0 (split_lines (contents c.claim)))),
      finish-lines trim law kept (record c { file = later }) ended clean,
    )
