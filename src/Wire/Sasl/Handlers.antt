-- ===== src/Wire/Sasl/Handlers.antt =====
-- internal/wire/sasl.go and dispatch.go: the two requests that authenticate a connection, and the gate
-- that the others wait at.
use kafka_wire.Prelude.{
  ℕ, if◌then◌else◌, Bool, true, not, ◌||◌, List, [], ◌∷◌, Option, none, some, ◌==◌,
}
use kafka_wire.Prelude.Result.{ok, err}
use kafka_wire.Prelude.Map.{same}
use kafka_wire.Broker.Acl.{AclStore, tenant_of}
use kafka_wire.Wire.Sasl.{
  Crypto, ScramServer, ScramConversation, Reply, Drawn, do_step, new_scram_conversation,
}

-- What a connection keeps of its authentication.
pub record ConnState : Type 0 where
  pub sasl_mechanism : List ℕ
  pub sasl_state : Option ScramConversation
  pub sasl_complete : Bool
  pub sasl_principal : List ℕ
  pub tenant_id : List ℕ

-- "SCRAM-SHA-256"
abbrev pub scram_sha_256 : List ℕ
scram_sha_256 = 83 ∷ 67 ∷ 82 ∷ 65 ∷ 77 ∷ 45 ∷ 83 ∷ 72 ∷ 65 ∷ 45 ∷ 50 ∷ 53 ∷ 54 ∷ []

-- The error code and the bytes of a response.
abbrev pub Response : Type 0
Response = ℕ × List ℕ

abbrev pub err_code_none : ℕ
err_code_none = 0

abbrev pub err_code_unsupported_sasl_mech : ℕ
err_code_unsupported_sasl_mech = 33

abbrev pub err_code_sasl_auth_failed : ℕ
err_code_sasl_auth_failed = 58

unfoldable pub handle_sasl_handshake :
    Option ScramServer → ConnState → List ℕ → ConnState × Response
handle_sasl_handshake scram state mechanism =
    if not (same mechanism scram_sha_256)
    then (state, (err_code_unsupported_sasl_mech, []))
    else elim scram [
      | none ↦ (state, (err_code_sasl_auth_failed, []))
      | some server ↦ (
        record state {
          sasl_mechanism = mechanism;
          sasl_state = some (new_scram_conversation server);
        },
        (err_code_none, []),
      )
    ]

-- The end of `handleSASLAuthenticate`: what the step's outcome does to the connection.
unfoldable pub conclude :
    Option AclStore → ConnState → ScramConversation → Reply → ConnState × Response
conclude acl state conv (err e) =
    (record state { sasl_state = some conv }, (err_code_sasl_auth_failed, []))
conclude acl state conv (ok (out, done)) =
    let kept = record state { sasl_state = some conv } in
    if not done
    then (kept, (err_code_none, out))
    else if conv.valid
    then (
      record kept {
        sasl_complete = true;
        sasl_principal = conv.username;
        tenant_id = elim acl [ none ↦ state.tenant_id | some s ↦ tenant_of s conv.username ];
      },
      (err_code_none, out),
    )
    else (kept, (err_code_sasl_auth_failed, out))

abbrev pub conclude_step :
    Option AclStore → ConnState → Option (ScramConversation × Reply) → Option (ConnState × Response)
conclude_step acl state none = none
conclude_step acl state (some (conv, reply)) = some (conclude acl state conv reply)

module _ (c : Crypto) where
  unfoldable pub handle_sasl_authenticate :
      Option AclStore → ConnState → Drawn → List ℕ → Option (ConnState × Response)
  handle_sasl_authenticate acl state d auth_bytes = elim state.sasl_state [
    | none ↦ some (state, (err_code_sasl_auth_failed, []))
    | some conv ↦ conclude_step acl state (do_step c conv d auth_bytes)
  ]

-- The gate of `handle`: which requests a connection may make before it has authenticated.
abbrev pub key_sasl_handshake : ℕ
key_sasl_handshake = 17

abbrev pub key_api_versions : ℕ
key_api_versions = 18

abbrev pub key_sasl_authenticate : ℕ
key_sasl_authenticate = 36

unfoldable pub passes_gate : ConnState → ℕ → Bool
passes_gate state api_key =
    if not state.sasl_complete
    then (api_key == key_api_versions)
      || ((api_key == key_sasl_handshake) || (api_key == key_sasl_authenticate))
    else true
