-- ===== src/Wire/Sasl.antt =====
-- internal/wire/sasl.go: SCRAM-SHA-256, one conversation for a connection. Strings are lists of bytes. The
-- hashes, base64 and the printing of a number are arguments, and so is the randomness of a call.
pub mod Handlers
pub mod Users
pub mod Proof
pub mod Authenticated
mod Tests
use kafka_wire.Prelude.{
  ℕ, zero, suc, ◌+◌, ◌*◌, ◌/◌, ◌%◌, Bool, true, false, not, ◌&&◌, ◌||◌, List, [], ◌∷◌, ◌++◌, Option,
  none, some, length, drop, take, ◌==◌, if◌then◌else◌, ltb, map,
}
use kafka_wire.Prelude.Result.{Result, ok, err}
use kafka_wire.Prelude.Map.{same, find}
use kafka_wire.Broker.Acl.{AclStore, has_prefix, tenant_of, configured}

-- The packages that the code calls. `decode` is none where the text is not base64.
pub record Crypto : Type 0 where
  pub hmac_sha256 : List ℕ → List ℕ → List ℕ
  pub sha256_sum : List ℕ → List ℕ
  -- The password, the salt, the iterations and the size.
  pub pbkdf2 : List ℕ → List ℕ → ℕ → ℕ → List ℕ
  pub encode : List ℕ → List ℕ
  pub raw_encode : List ℕ → List ℕ
  pub decode : List ℕ → Option (List ℕ)
  pub decimal : ℕ → List ℕ

pub record ScramCreds : Type 0 where
  pub salt : List ℕ
  pub iters : ℕ
  pub stored_key : List ℕ
  pub server_key : List ℕ

abbrev pub ScramServer : Type 0
ScramServer = List (List ℕ × ScramCreds)

pub record ScramConversation : Type 0 where
  pub server : ScramServer
  pub step : ℕ
  pub username : List ℕ
  pub client_nonce : List ℕ
  pub server_nonce : List ℕ
  pub creds : Option ScramCreds
  pub auth_message : List ℕ
  pub valid : Bool

pub data ScramError : Type 0 where
  too_many_steps unsupported_flag malformed_first missing_name_or_nonce : ScramError
  missing_proof nonce_mismatch unsupported_binding bad_base64 wrong_length : ScramError

abbrev pub scram_iterations : ℕ
scram_iterations = 4096

abbrev pub scram_hash_size : ℕ
scram_hash_size = 32

abbrev pub scram_salt_len : ℕ
scram_salt_len = 12

abbrev pub comma : ℕ
comma = 44

-- `strings.Split` at one character.
abbrev pub onto_part : ℕ → List (List ℕ) → List (List ℕ)
onto_part c [] = (c ∷ []) ∷ []
onto_part c (p ∷ ps) = (c ∷ p) ∷ ps

unfoldable pub split : ℕ → List ℕ → List (List ℕ)
split sep [] = [] ∷ []
split sep (c ∷ s) = let rest = split sep s in if c == sep then [] ∷ rest else onto_part c rest

-- `strings.ReplaceAll` of three characters with one.
unfoldable pub replace_all : ℕ → ℕ → ℕ → ℕ → List ℕ → List ℕ
replace_all p q r to [] = []
replace_all p q r to (x ∷ []) = x ∷ []
replace_all p q r to (x ∷ y ∷ []) = x ∷ y ∷ []
replace_all p q r to (x ∷ y ∷ z ∷ s) =
    let behind = replace_all p q r to s in
    let next = replace_all p q r to (y ∷ z ∷ s) in
    if (x == p) && ((y == q) && (z == r)) then to ∷ behind else x ∷ next

-- `=2C` is a comma, then `=3D` an equals sign.
unfoldable pub scram_decode_username : List ℕ → List ℕ
scram_decode_username s = replace_all 61 51 68 61 (replace_all 61 50 67 comma s)

-- The `^` of two numbers of `n` bits.
unfoldable pub xor_bits : ℕ → ℕ → ℕ → ℕ
xor_bits zero a b = 0
xor_bits (suc n) a b = (a + b) % 2 + 2 * xor_bits n (a / 2) (b / 2)

unfoldable pub xor_each : List ℕ → List ℕ → List ℕ
xor_each [] b = []
xor_each (x ∷ a) [] = x ∷ a
xor_each (x ∷ a) (y ∷ b) = xor_bits 8 x y ∷ xor_each a b

unfoldable pub xor_bytes : List ℕ → List ℕ → List ℕ
xor_bytes a b = if length a == length b then xor_each a b else a

-- `p[:1] == letter` with an equals sign behind it.
abbrev pub is_field : ℕ → List ℕ → Bool
is_field letter p = has_prefix p (letter ∷ 61 ∷ [])

-- The loop of `handleClientFirst` over the parts: the name and the nonce so far.
unfoldable pub first_fields : List (List ℕ) → List ℕ × List ℕ → List ℕ × List ℕ
first_fields [] (name, nonce) = (name, nonce)
first_fields (p ∷ ps) (name, nonce) =
    let named = first_fields ps (scram_decode_username (drop 2 p), nonce) in
    let nonced = first_fields ps (name, drop 2 p) in
    let other = first_fields ps (name, nonce) in
    if is_field 110 p then named else if is_field 114 p then nonced else other

-- The loop of `handleClientFinal`: the channel binding, the nonce and the proof so far.
pub record FinalFields : Type 0 where
  pub cbind : List ℕ
  pub nonce : List ℕ
  pub proof_b64 : List ℕ

unfoldable pub take_field : List ℕ → FinalFields → FinalFields
take_field p f =
    if is_field 99 p
    then record f { cbind = drop 2 p }
    else if is_field 114 p
    then record f { nonce = drop 2 p }
    else if is_field 112 p
    then record f { proof_b64 = drop 2 p }
    else f

unfoldable pub final_fields : List (List ℕ) → FinalFields → FinalFields
final_fields [] f = f
final_fields (p ∷ ps) f = final_fields ps (take_field p f)

abbrev pub no_fields : FinalFields
no_fields = record { cbind = []; nonce = []; proof_b64 = [] }

abbrev pub Reply : Type 0
Reply = Result ScramError (List ℕ × Bool)

-- "e=invalid-proof"
abbrev pub invalid_proof : List ℕ
invalid_proof =
    101 ∷ 61 ∷ 105 ∷ 110 ∷ 118 ∷ 97 ∷ 108 ∷ 105 ∷ 100 ∷ 45 ∷ 112 ∷ 114 ∷ 111 ∷ 111 ∷ 102 ∷ []

unfoldable pub new_scram_conversation : ScramServer → ScramConversation
new_scram_conversation server = record {
  server = server;
  step = 0;
  username = [];
  client_nonce = [];
  server_nonce = [];
  creds = none;
  auth_message = [];
  valid = false;
}

-- "c=" cbind ",r=" nonce
abbrev pub without_proof : FinalFields → List ℕ
without_proof f = 99 ∷ 61 ∷ (f.cbind ++ (comma ∷ 114 ∷ 61 ∷ f.nonce))

-- Neither "n,," nor "y,," begins the message.
abbrev pub bad_flag : List ℕ → Bool
bad_flag msg =
    not (has_prefix msg (110 ∷ comma ∷ comma ∷ []))
    && not (has_prefix msg (121 ∷ comma ∷ comma ∷ []))

-- Neither "biws" nor "eSws".
abbrev pub bad_binding : List ℕ → Bool
bad_binding cbind =
    not (same cbind (98 ∷ 105 ∷ 119 ∷ 115 ∷ [])) && not (same cbind (101 ∷ 83 ∷ 119 ∷ 115 ∷ []))

-- What a call draws: `randomBytes` of the salt, the two keys and the nonce.
pub record Drawn : Type 0 where
  pub random_salt : List ℕ
  pub random_stored : List ℕ
  pub random_server : List ℕ
  pub random_nonce : List ℕ

-- Credentials that fit no password, for a name that is not there.
abbrev pub fake_creds : Drawn → ScramCreds
fake_creds d = record {
  salt = d.random_salt;
  iters = scram_iterations;
  stored_key = d.random_stored;
  server_key = d.random_server;
}

unfoldable pub creds_for : ScramServer → Drawn → List ℕ → ScramCreds
creds_for users d name = elim (find same name users) [ none ↦ fake_creds d | some c ↦ c ]

module _ (c : Crypto) where
  -- "r=" nonce ",s=" salt ",i=" iterations
  abbrev pub server_first : List ℕ → ScramCreds → List ℕ
  server_first nonce creds =
      114
      ∷ 61
      ∷ (nonce
          ++ (comma
              ∷ 115
              ∷ 61
              ∷ (c.encode creds.salt ++ (comma ∷ 105 ∷ 61 ∷ c.decimal creds.iters))))

  abbrev pub challenge : ScramConversation → Drawn → List ℕ → List ℕ → ScramConversation × Reply
  challenge conv d bare name =
      let creds = creds_for conv.server d name in
      let nonce = conv.client_nonce ++ c.raw_encode d.random_nonce in
      let out = server_first nonce creds in
      (
        record conv {
          creds = some creds;
          server_nonce = nonce;
          auth_message = bare ++ (comma ∷ out);
          step = 1;
        },
        ok (out, false),
      )

  unfoldable pub handle_client_first :
      ScramConversation → Drawn → List ℕ → ScramConversation × Reply
  handle_client_first conv d msg =
      let bare = drop 3 msg in
      let parts = split comma bare in
      let (name, nonce) = first_fields parts (conv.username, conv.client_nonce) in
      let conv' = record conv { username = name; client_nonce = nonce } in
      if bad_flag msg
      then (conv, err unsupported_flag)
      else if ltb (length parts) 2
      then (conv, err malformed_first)
      else if (length name == 0) || (length nonce == 0)
      then (conv', err missing_name_or_nonce)
      else challenge conv' d bare name

  -- The key that a proof stands for: the proof without the client's signature of the exchange.
  abbrev pub client_key : List ℕ → List ℕ → List ℕ → List ℕ
  client_key stored message proof = xor_bytes proof (c.hmac_sha256 stored message)

  -- The end of `handleClientFinal`, the proof read.
  unfoldable pub check_proof : ScramConversation → ScramCreds → List ℕ → ScramConversation × Reply
  check_proof conv creds proof =
      if not (length proof == scram_hash_size)
      then (conv, err wrong_length)
      else if not (
          same (c.sha256_sum (client_key creds.stored_key conv.auth_message proof))
            creds.stored_key)
      then (record conv { step = 2; valid = false }, ok (invalid_proof, true))
      else (
        record conv { step = 2; valid = true },
        ok (118 ∷ 61 ∷ c.encode (c.hmac_sha256 creds.server_key conv.auth_message), true),
      )

  -- `conv.creds` is set at this step: a nil pointer, none, would stop the program.
  unfoldable pub handle_client_final :
      ScramConversation → ScramCreds → List ℕ → ScramConversation × Reply
  handle_client_final conv creds msg =
      let f = final_fields (split comma msg) no_fields in
      let signed = record conv { auth_message = conv.auth_message ++ (comma ∷ without_proof f) } in
      if length f.proof_b64 == 0
      then (conv, err missing_proof)
      else if not (same f.nonce conv.server_nonce)
      then (conv, err nonce_mismatch)
      else if bad_binding f.cbind
      then (conv, err unsupported_binding)
      else elim (c.decode f.proof_b64) [
        | none ↦ (signed, err bad_base64)
        | some proof ↦ check_proof signed creds proof
      ]

  abbrev pub final_or_stop :
      ScramConversation → Option ScramCreds → List ℕ → Option (ScramConversation × Reply)
  final_or_stop conv none msg = none
  final_or_stop conv (some creds) msg = some (handle_client_final conv creds msg)

  -- `none` where the program would stop.
  unfoldable pub do_step : ScramConversation → Drawn → List ℕ → Option (ScramConversation × Reply)
  do_step conv d msg =
      if conv.step == 0
      then some (handle_client_first conv d msg)
      else if conv.step == 1
      then final_or_stop conv conv.creds msg
      else some (conv, err too_many_steps)
