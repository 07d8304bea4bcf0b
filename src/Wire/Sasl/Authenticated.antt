-- ===== src/Wire/Sasl/Authenticated.antt =====
-- internal/wire/sasl.go: what an authenticated connection has shown.
use kafka_wire.Prelude.{
  ℕ, true, false, not, List, [], Option, none, some, length, ◌≡◌, ◌==◌, refl, sym, inl, inr,
  Bool-cases, ap, arith, ◌≢◌, subst, ◌∙◌, if-both, if-each, option-both, option-each,
}
use kafka_wire.Prelude.Result.{ok, err}
use kafka_wire.Prelude.Map.{same}
use kafka_wire.Broker.Acl.{AclStore}
use kafka_wire.Wire.Sasl.Handlers.{
  ConnState, Response, conclude, conclude_step, handle_sasl_authenticate, err_code_sasl_auth_failed,
}
use kafka_wire.Wire.Sasl.{
  Crypto, ScramConversation, ScramCreds, Drawn, Reply, client_key, check_proof, handle_client_final,
  do_step, scram_hash_size, final_or_stop, bad_binding,
}
use kafka_wire.Wire.Sasl.Proof.{
  fields_of, IsProof, Succeeds, NotMore, failed, handle_client_first-more, Shows,
  handle_client_final-IsProof,
}

module _ (c : Crypto) where
  KeepsName : ScramConversation → ScramConversation × Reply → Type 0
  KeepsName conv r = r.0.username ≡ conv.username

  keeps :
      (conv conv' : ScramConversation)
      → conv'.username ≡ conv.username
      → (reply : Reply) → KeepsName conv (conv', reply)
  unfolding KeepsName
  keeps conv conv' h reply = h

  check_proof-username :
      (conv signed : ScramConversation) (creds : ScramCreds) (proof : List ℕ)
      → signed.username ≡ conv.username
      → KeepsName conv (check_proof c signed creds proof)
  unfolding check_proof
  check_proof-username conv signed creds proof h =
      let P = KeepsName conv in
      let key = client_key c creds.stored_key signed.auth_message proof in
      if-both P (not (length proof == scram_hash_size)) _ _ (keeps conv _ h _) (
        if-both P (not (same (c.sha256_sum key) creds.stored_key)) _ _ (keeps conv _ h _)
          (keeps conv _ h _))

  handle_client_final-username :
      (conv : ScramConversation) (creds : ScramCreds) (msg : List ℕ)
      → KeepsName conv (handle_client_final c conv creds msg)
  unfolding handle_client_final
  handle_client_final-username conv creds msg =
      let P = KeepsName conv in
      let k = keeps conv in
      let f = fields_of c msg in
      if-both P (length f.proof_b64 == 0) _ _ (k _ refl _) (
        if-both P (not (same f.nonce conv.server_nonce)) _ _ (k _ refl _) (
          if-both P (bad_binding f.cbind) _ _ (k _ refl _) (
            option-both P (c.decode f.proof_b64) _ _ (k _ refl _)
              (λ proof. check_proof-username conv _ creds proof refl))))

  shown :
      (conv : ScramConversation) (creds : ScramCreds) (msg : List ℕ) (r : ScramConversation × Reply)
      → Shows c conv creds msg r
      → Succeeds c r
      → IsProof c conv creds msg
  unfolding Shows
  shown conv creds msg r h = h

  kept :
      (conv : ScramConversation) (r : ScramConversation × Reply)
      → KeepsName conv r
      → r.0.username ≡ conv.username
  unfolding KeepsName
  kept conv r h = h

  some-injective : {A : Type 0} {a b : A} → some a ≡ some b → a ≡ b
  some-injective h = cc

  -- The conversation waits for the proof, and the message has it.
  abbrev pub IsProven : ScramConversation → List ℕ → Type 0
  IsProven conv msg =
      (conv.step ≡ 1) × (creds : ScramCreds) × (conv.creds ≡ some creds) × IsProof c conv creds msg

  Stepped : ScramConversation → List ℕ → Option (ScramConversation × Reply) → Type 0
  Stepped conv msg o =
      (r : ScramConversation × Reply)
      → o ≡ some r
      → Succeeds c r
      → IsProven conv msg × (r.0.username ≡ conv.username)

  final_or_stop-IsProven :
      (conv : ScramConversation) (o : Option ScramCreds) (msg : List ℕ)
      → conv.step ≡ 1
      → conv.creds ≡ o
      → Stepped conv msg (final_or_stop c conv o msg)
  unfolding Stepped
  final_or_stop-IsProven conv none msg h e r k good = absurd cc
  final_or_stop-IsProven conv (some creds) msg h e r k good =
      let same_r = some-injective k in
      (
        (
          h,
          creds,
          e,
          shown conv creds msg _ (handle_client_final-IsProof c conv creds msg)
              (subst (Succeeds c) (sym same_r) good),
        ),
        ap (λ t. t.0.username) (sym same_r)
            ∙ kept conv _ (handle_client_final-username conv creds msg),
      )

  not_more-Stepped :
      (conv : ScramConversation) (msg : List ℕ) (r : ScramConversation × Reply)
      → NotMore c r
      → Stepped conv msg (some r)
  unfolding Stepped NotMore
  not_more-Stepped conv msg r more s k (out, h, v) =
      absurd (more out (ap (λ t. t.1) (some-injective k) ∙ h))

  do_step-IsProven :
      (conv : ScramConversation) (d : Drawn) (msg : List ℕ)
      → Stepped conv msg (do_step c conv d msg)
  unfolding do_step
  do_step-IsProven conv d msg =
      let P = Stepped conv msg in
      if-both P (conv.step == 0) _ _
        (not_more-Stepped conv msg _ (handle_client_first-more c conv d msg))
        (if-each P (conv.step == 1) _ _
          (λ e1. final_or_stop-IsProven conv conv.creds msg (ground arith) refl)
          (λ e1. not_more-Stepped conv msg _ (failed c conv _)))

  abbrev Completes : ConnState → ConnState × Response → Type 0
  Completes state answer = (state.sasl_complete ≡ false) × (answer.0.sasl_complete ≡ true)

  conclude-Succeeds :
      (acl : Option AclStore) (state : ConnState) (conv : ScramConversation) (reply : Reply)
      → Completes state (conclude acl state conv reply)
      → Succeeds c (conv, reply)
        × ((conclude acl state conv reply).0.sasl_principal ≡ conv.username)
  unfolding conclude
  conclude-Succeeds acl state conv (err e) h = absurd cc
  conclude-Succeeds acl state conv (ok (out, false)) h = absurd cc
  conclude-Succeeds acl state conv (ok (out, true)) h = elim (Bool-cases conv.valid) [
    | inl e ↦ ((out, refl, e), rw e refl)
    | inr e ↦ absurd (ground (arith, e, h))
  ]

  conclude_step-IsProven :
      (acl : Option AclStore) (state : ConnState) (conv : ScramConversation) (msg : List ℕ)
      (o : Option (ScramConversation × Reply)) (answer : ConnState × Response)
      → Stepped conv msg o
      → conclude_step acl state o ≡ some answer
      → Completes state answer
      → IsProven conv msg × (answer.0.sasl_principal ≡ conv.username)
  unfolding Stepped
  conclude_step-IsProven acl state conv msg none answer s k h = absurd cc
  conclude_step-IsProven acl state conv msg (some (conv', reply)) answer s k h =
      let same_answer = some-injective k in
      let (good, n) =
        conclude-Succeeds acl state conv' reply (subst (Completes state) (sym same_answer) h) in
      let (p, u) = s (conv', reply) refl good in
      (p, ap (λ t. t.0.sasl_principal) (sym same_answer) ∙ n ∙ u)

  failed_handshake :
      (state : ConnState) (answer : ConnState × Response)
      → (state, (err_code_sasl_auth_failed, [])) ≡ answer
      → state.sasl_complete ≡ false
      → answer.0.sasl_complete ≢ true
  failed_handshake state answer e h g = cc (ap (λ t. t.0.sasl_complete) e, h, g)

  -- A connection that was not authenticated and is after this message: its conversation was waiting for
  -- the client's last message, and this message has the conversation's nonce and, in base64, a proof of
  -- the hash's size which stands for a key that hashes to the conversation's stored key. The connection is
  -- then the user's who began the conversation.
  pub authenticate-IsProven :
      (acl : Option AclStore) (state : ConnState) (d : Drawn) (msg : List ℕ)
      (answer : ConnState × Response)
      → handle_sasl_authenticate c acl state d msg ≡ some answer
      → state.sasl_complete ≡ false
      → answer.0.sasl_complete ≡ true
      → (conv : ScramConversation) × (state.sasl_state ≡ some conv)
        × IsProven conv msg
        × (answer.0.sasl_principal ≡ conv.username)
  unfolding handle_sasl_authenticate
  authenticate-IsProven acl state d msg answer k h g =
      let Goal =
        (conv : ScramConversation) × (state.sasl_state ≡ some conv)
        × IsProven conv msg
        × (answer.0.sasl_principal ≡ conv.username) in
      option-each (λ (x : Option (ConnState × Response)). x ≡ some answer → Goal) state.sasl_state
        (some (state, (err_code_sasl_auth_failed, [])))
        (λ conv. conclude_step acl state (do_step c conv d msg))
        (λ e k'. absurd (failed_handshake state answer (some-injective k') h g))
        (λ conv e k'.
          let (p, u) =
            conclude_step-IsProven acl state conv msg _ answer (do_step-IsProven conv d msg) k'
              (h, g) in
          (conv, e, p, u))
        k
