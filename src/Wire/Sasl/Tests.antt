-- ===== src/Wire/Sasl/Tests.antt =====
-- internal/wire/sasl.go on small inputs, with hashes that are easy to follow.
use kafka_wire.Prelude.{
  ℕ, Bool, true, false, List, [], ◌∷◌, ◌++◌, Option, none, some, ◌≡◌, refl, map,
}
use kafka_wire.Prelude.Map.{same, find}
use kafka_wire.Wire.Sasl.{
  Crypto, ScramServer, ScramConversation, Drawn, new_scram_conversation, handle_client_first,
  handle_client_final, check_proof, do_step, split, first_fields, final_fields, take_field,
  xor_bytes, xor_each, xor_bits, replace_all, scram_decode_username, creds_for,
}
use kafka_wire.Wire.Sasl.Handlers.{
  ConnState, Response, handle_sasl_handshake, handle_sasl_authenticate, conclude, scram_sha_256,
  err_code_none,
}
use kafka_wire.Wire.Sasl.Authenticated.{IsProven, authenticate-IsProven}
use kafka_wire.Broker.Acl.{has_prefix}

abbrev eight : List ℕ
eight = 7 ∷ 7 ∷ 7 ∷ 7 ∷ 7 ∷ 7 ∷ 7 ∷ 7 ∷ []

abbrev key : List ℕ
key = eight ++ (eight ++ (eight ++ eight))

-- A hash that keeps its argument, and a signature of ones.
abbrev plain : Crypto
plain = record {
  hmac_sha256 = λ k m. map (λ x. 1) k;
  sha256_sum = λ m. m;
  pbkdf2 = λ password salt iters size. password;
  encode = λ m. m;
  raw_encode = λ m. m;
  decode = λ m. some m;
  decimal = λ n. 52 ∷ [];
}

abbrev server : ScramServer
server = ((97 ∷ []), record { salt = 9 ∷ []; iters = 4; stored_key = key; server_key = key }) ∷ []

abbrev fresh : ConnState
fresh = record {
  sasl_mechanism = [];
  sasl_state = none;
  sasl_complete = false;
  sasl_principal = [];
  tenant_id = [];
}

abbrev drawn : Drawn
drawn = record {
  random_salt = 8 ∷ [];
  random_stored = [];
  random_server = [];
  random_nonce = 65 ∷ [];
}

abbrev shaken : ConnState
shaken = (handle_sasl_handshake (some server) fresh scram_sha_256).0

-- "n,,n=a,r=z"
abbrev client_first : List ℕ
client_first = 110 ∷ 44 ∷ 44 ∷ 110 ∷ 61 ∷ 97 ∷ 44 ∷ 114 ∷ 61 ∷ 122 ∷ []

-- "c=biws,r=zA,p=" and the proof.
abbrev client_final : List ℕ → List ℕ
client_final proof =
    99 ∷ 61 ∷ 98 ∷ 105 ∷ 119 ∷ 115 ∷ 44 ∷ 114 ∷ 61 ∷ 122 ∷ 65 ∷ 44 ∷ 112 ∷ 61 ∷ proof

abbrev then_send : List ℕ → Option (ConnState × Response) → Option (ConnState × Response)
then_send msg none = none
then_send msg (some (state, r)) = handle_sasl_authenticate plain none state drawn msg

abbrev challenged : Option (ConnState × Response)
challenged = handle_sasl_authenticate plain none shaken drawn client_first

abbrev outcome : Option (ConnState × Response) → Option (Bool × ℕ)
outcome none = none
outcome (some (state, (code, out))) = some (state.sasl_complete, code)

right_proof : outcome (then_send (client_final (map (λ x. 6) key)) challenged) ≡ some (true, 0)
unfolding handle_sasl_handshake handle_sasl_authenticate do_step new_scram_conversation conclude
    same handle_client_first handle_client_final check_proof split first_fields final_fields
    take_field xor_bytes xor_each xor_bits replace_all scram_decode_username creds_for has_prefix
    find
right_proof = refl

wrong_proof : outcome (then_send (client_final (map (λ x. 5) key)) challenged) ≡ some (false, 58)
unfolding handle_sasl_handshake handle_sasl_authenticate do_step new_scram_conversation conclude
    same handle_client_first handle_client_final check_proof split first_fields final_fields
    take_field xor_bytes xor_each xor_bits replace_all scram_decode_username creds_for has_prefix
    find
wrong_proof = refl

abbrev waiting : ScramConversation
waiting = record {
  server = server;
  step = 1;
  username = 97 ∷ [];
  client_nonce = 122 ∷ [];
  server_nonce = 122 ∷ 65 ∷ [];
  creds = some (record { salt = 9 ∷ []; iters = 4; stored_key = key; server_key = key });
  auth_message = 110 ∷ 61 ∷ 97 ∷ [];
  valid = false;
}

abbrev begun : ConnState
begun = record fresh { sasl_state = some waiting }

abbrev message : List ℕ
message = client_final (map (λ x. 6) key)

abbrev signed : ScramConversation
signed = record waiting {
  auth_message =
      110 ∷ 61 ∷ 97 ∷ 44 ∷ 99 ∷ 61 ∷ 98 ∷ 105 ∷ 119 ∷ 115 ∷ 44 ∷ 114 ∷ 61 ∷ 122 ∷ 65 ∷ [];
  step = 2;
  valid = true;
}

abbrev answered : ConnState × Response
answered = (
  record begun { sasl_state = some signed; sasl_complete = true; sasl_principal = 97 ∷ [] },
  (err_code_none, 118 ∷ 61 ∷ map (λ x. 1) key),
)

answered_so : handle_sasl_authenticate plain none begun drawn message ≡ some answered
unfolding handle_sasl_authenticate do_step conclude same handle_client_final check_proof split
    final_fields take_field xor_bytes xor_each xor_bits has_prefix
answered_so = refl

authenticate-IsProven_example :
    (conv : ScramConversation) × (some waiting ≡ some conv)
    × IsProven plain conv message
    × ((97 ∷ []) ≡ conv.username)
authenticate-IsProven_example =
    authenticate-IsProven plain none begun drawn message answered answered_so refl refl
