-- ===== src/Webhook/Lines.antt =====
-- internal/webhook/forwarder.go: the lines of the dead letter files.
use kafka_wire.Prelude.{
  ℕ, ◌≡◌, refl, ap, ◌∙◌, sym, ◌⊎◌, inl, inr, true, List, [], ◌∷◌, ◌++◌, Option, ◌==◌, if◌then◌else◌,
  Bool-cases, append-nil, append_assoc,
}
use kafka_wire.Webhook.Dlq.{
  newline, onto_first, split_lines, ends_line, contents, is_blank, records_of, append_raw,
}

split_lines-cons : (xs : List ℕ) → (l : List ℕ) × (ls : List (List ℕ)) × (split_lines xs ≡ (l ∷ ls))
unfolding split_lines
split_lines-cons [] = ([], [], refl)
split_lines-cons (c ∷ cs) = elim (Bool-cases (c == newline)) [
  | inl e ↦ ([], split_lines cs, rw (split_lines, e) refl)
  | inr e ↦ let (l, ls, h) = split_lines-cons cs in (c ∷ l, ls, rw (split_lines, e, h) refl)
]

onto_first-append :
    (c : ℕ) (l : List ℕ) (xs ls ys : List (List ℕ))
    → xs ≡ (l ∷ ls)
    → onto_first c (xs ++ ys) ≡ onto_first c xs ++ ys
onto_first-append c l xs ls ys h = rw h refl

split_lines-newline :
    (xs ys : List ℕ) → split_lines (xs ++ (newline ∷ ys)) ≡ split_lines xs ++ split_lines ys
unfolding split_lines
split_lines-newline [] ys = refl
split_lines-newline (c ∷ cs) ys = elim (Bool-cases (c == newline)) [
  | inl e ↦ rw (split_lines, e) (ap (λ t. [] ∷ t) (split_lines-newline cs ys))
  | inr e ↦
      let (l, ls, h) = split_lines-cons cs in
      rw (split_lines, e)
        (ap (onto_first c) (split_lines-newline cs ys)
          ∙ onto_first-append c l (split_lines cs) ls (split_lines ys) h)
]

module _ (trim : List ℕ → List ℕ) where
  records_of-append :
      (xs ys : List (List ℕ))
      → records_of trim (xs ++ ys) ≡ records_of trim xs ++ records_of trim ys
  unfolding records_of
  records_of-append [] ys = refl
  records_of-append (x ∷ xs) ys = elim (Bool-cases (is_blank trim x)) [
    | inl e ↦ rw (records_of, e) (records_of-append xs ys)
    | inr e ↦ rw (records_of, e) (ap (λ t. trim x ∷ t) (records_of-append xs ys))
  ]

  -- The records of a file.
  abbrev pub lines_of : List ℕ → List (List ℕ)
  lines_of bytes = records_of trim (split_lines bytes)

  -- What the code relies on in TrimSpace: of white space nothing is left, of its lines neither.
  pub record TrimsBlanks : Type 0 where
    pub trims_nothing : trim [] ≡ []
    pub blank_lines : (bytes : List ℕ) → is_blank trim bytes ≡ true → lines_of bytes ≡ []

  pub lines_of-newline :
      (xs ys : List ℕ) → lines_of (xs ++ (newline ∷ ys)) ≡ lines_of xs ++ lines_of ys
  lines_of-newline xs ys =
      ap (records_of trim) (split_lines-newline xs ys)
      ∙ records_of-append (split_lines xs) (split_lines ys)

module _ (trim : List ℕ → List ℕ) (law : TrimsBlanks trim) where
  pub lines_of-nil : lines_of trim [] ≡ []
  unfolding split_lines records_of is_blank
  lines_of-nil = rw law.trims_nothing refl

  lines_of-ended : (xs : List ℕ) → lines_of trim (xs ++ (newline ∷ [])) ≡ lines_of trim xs
  lines_of-ended xs =
      lines_of-newline trim xs []
      ∙ ap (λ t. lines_of trim xs ++ t) lines_of-nil
      ∙ append-nil (lines_of trim xs)

-- A file that ends with its last line.
abbrev pub IsWhole : List ℕ → Type 0
IsWhole bytes = (bytes ≡ []) ⊎ ((xs : List ℕ) × (bytes ≡ xs ++ (newline ∷ [])))

module _ (trim : List ℕ → List ℕ) (law : TrimsBlanks trim) where
  behind-whole :
      (bytes ys : List ℕ)
      → IsWhole bytes
      → lines_of trim (bytes ++ ys) ≡ lines_of trim bytes ++ lines_of trim ys
  behind-whole bytes ys (inl e) = rw (e, lines_of-nil trim law) refl
  behind-whole bytes ys (inr (xs, e)) =
      ap (λ t. lines_of trim (t ++ ys)) e
      ∙ ap (lines_of trim) (append_assoc xs (newline ∷ []) ys)
      ∙ lines_of-newline trim xs ys
      ∙ ap (λ t. t ++ lines_of trim ys)
          (sym (lines_of-ended trim law xs) ∙ ap (lines_of trim) (sym e))

  ended :
      (bytes : List ℕ)
      → lines_of trim (if ends_line bytes then bytes else bytes ++ (newline ∷ []))
        ≡ lines_of trim bytes
  ended bytes = elim (Bool-cases (ends_line bytes)) [
    | inl e ↦ rw e refl
    | inr e ↦ rw e (lines_of-ended trim law bytes)
  ]

  pub append_raw-lines :
      (file : Option (List ℕ)) (bytes : List ℕ)
      → IsWhole (contents file)
      → lines_of trim (contents (append_raw trim file bytes))
        ≡ lines_of trim (contents file) ++ lines_of trim bytes
  unfolding append_raw
  append_raw-lines file bytes whole = elim (Bool-cases (is_blank trim bytes)) [
    | inl e ↦
        rw (append_raw, e)
          (sym (append-nil (lines_of trim (contents file)))
            ∙ ap (λ t. lines_of trim (contents file) ++ t) (sym (law.blank_lines bytes e)))
    | inr e ↦
        rw (append_raw, e)
          (behind-whole (contents file) _ whole
            ∙ ap (λ t. lines_of trim (contents file) ++ t) (ended bytes))
  ]
