-- ===== src/Wire/Sasl/Proof.antt =====
-- internal/wire/sasl.go: what the client's last message has shown when it is accepted.
use kafka_wire.Prelude.{
  ℕ, true, false, not, List, ◌∷◌, ◌++◌, some, length, ◌≡◌, ◌==◌, ◌||◌, refl, arith, ◌≢◌, drop, ltb,
  subst, if-both, if-each, option-each,
}
use kafka_wire.Prelude.Result.{ok, err}
use kafka_wire.Prelude.Map.{same, same_eq}
use kafka_wire.Wire.Sasl.{
  Crypto, ScramConversation, ScramCreds, FinalFields, Drawn, Reply, split, comma, final_fields,
  no_fields, without_proof, client_key, check_proof, handle_client_first, handle_client_final,
  scram_hash_size, first_fields, bad_flag, bad_binding, ScramError,
}

module _ (c : Crypto) where
  -- The fields of a message.
  abbrev pub fields_of : List ℕ → FinalFields
  fields_of msg = final_fields (split comma msg) no_fields

  -- What the proof is about: the exchange up to the client's last message.
  abbrev pub signed_message : ScramConversation → List ℕ → List ℕ
  signed_message conv msg = conv.auth_message ++ (comma ∷ without_proof (fields_of msg))

  -- The key that the proof stands for hashes to the stored one.
  abbrev pub ProvesKey : List ℕ → ScramCreds → List ℕ → Type 0
  ProvesKey message creds proof =
      (length proof ≡ scram_hash_size)
      × (c.sha256_sum (client_key c creds.stored_key message proof) ≡ creds.stored_key)

  -- The message carries the nonce of this conversation and a proof of the key.
  pub record IsProof (conv : ScramConversation) (creds : ScramCreds) (msg : List ℕ) : Type 0 where
    pub same_nonce : (fields_of msg).nonce ≡ conv.server_nonce
    pub proof : List ℕ
    pub decoded : c.decode (fields_of msg).proof_b64 ≡ some proof
    pub proves_key : ProvesKey (signed_message conv msg) creds proof

  -- A reply that ends the exchange well.
  abbrev pub Succeeds : ScramConversation × Reply → Type 0
  Succeeds r = (out : List ℕ) × (r.1 ≡ ok (out, true)) × (r.0.valid ≡ true)

  unfoldable pub NotMore : ScramConversation × Reply → Type 0
  NotMore r = (out : List ℕ) → r.1 ≢ ok (out, true)

  pub failed : (conv : ScramConversation) (e : ScramError) → NotMore (conv, err e)
  unfolding NotMore
  failed conv e out h = cc

  goes_on : (conv : ScramConversation) (text : List ℕ) → NotMore (conv, ok (text, false))
  unfolding NotMore
  goes_on conv text out h = cc

  check_proof-ProvesKey :
      (conv : ScramConversation) (creds : ScramCreds) (proof : List ℕ)
      → Succeeds (check_proof c conv creds proof)
      → ProvesKey conv.auth_message creds proof
  unfolding check_proof
  check_proof-ProvesKey conv creds proof =
      let P =
        λ (r : ScramConversation × Reply). Succeeds r → ProvesKey conv.auth_message creds proof in
      if-each P (not (length proof == scram_hash_size)) _ _ (λ e (out, h, v). absurd cc)
        (λ e.
          if-each P
            (not (
              same (c.sha256_sum (client_key c creds.stored_key conv.auth_message proof))
                creds.stored_key))
            _ _ (λ e' (out, h, v). absurd cc)
            (λ e' (out, h, v). (ground arith, same_eq _ _ (ground arith))))

  pub handle_client_first-more :
      (conv : ScramConversation) (d : Drawn) (msg : List ℕ)
      → NotMore (handle_client_first c conv d msg)
  unfolding handle_client_first
  handle_client_first-more conv d msg =
      let parts = split comma (drop 3 msg) in
      let (name, nonce) = first_fields parts (conv.username, conv.client_nonce) in
      if-both NotMore (bad_flag msg) _ _ (failed _ _) (
        if-both NotMore (ltb (length parts) 2) _ _ (failed _ _) (
          if-both NotMore ((length name == 0) || (length nonce == 0)) _ _ (failed _ _)
            (goes_on _ _)))

  -- Of a reply that ends the exchange well.
  unfoldable pub Shows :
      ScramConversation → ScramCreds → List ℕ → ScramConversation × Reply → Type 0
  Shows conv creds msg r = Succeeds r → IsProof conv creds msg

  failed-Shows :
      (conv : ScramConversation) (creds : ScramCreds) (msg : List ℕ) (conv' : ScramConversation)
      (e : ScramError)
      → Shows conv creds msg (conv', err e)
  unfolding Shows
  failed-Shows conv creds msg conv' e (out, h, v) = absurd cc

  check_proof-Shows :
      (conv signed : ScramConversation) (creds : ScramCreds) (msg proof : List ℕ)
      → signed.auth_message ≡ signed_message conv msg
      → (fields_of msg).nonce ≡ conv.server_nonce
      → c.decode (fields_of msg).proof_b64 ≡ some proof
      → Shows conv creds msg (check_proof c signed creds proof)
  unfolding Shows
  check_proof-Shows conv signed creds msg proof m n d good = record {
    same_nonce = n;
    proof = proof;
    decoded = d;
    proves_key =
        subst (λ t. ProvesKey t creds proof) m (check_proof-ProvesKey signed creds proof good);
  }

  pub handle_client_final-IsProof :
      (conv : ScramConversation) (creds : ScramCreds) (msg : List ℕ)
      → Shows conv creds msg (handle_client_final c conv creds msg)
  unfolding handle_client_final
  handle_client_final-IsProof conv creds msg =
      let f = fields_of msg in
      let P = Shows conv creds msg in
      let fails = failed-Shows conv creds msg in
      if-both P (length f.proof_b64 == 0) _ _ (fails _ _) (
        if-each P (not (same f.nonce conv.server_nonce)) _ _ (λ _. fails _ _)
          (λ e. if-both P (bad_binding f.cbind) _ _ (fails _ _) (
            option-each P (c.decode f.proof_b64) _ _ (λ _. fails _ _)
              (λ proof d.
                check_proof-Shows conv _ creds msg proof refl (same_eq _ _ (ground arith)) d))))
