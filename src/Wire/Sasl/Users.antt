-- ===== src/Wire/Sasl/Users.antt =====
-- internal/wire/sasl.go: the keys of the users' file.
use kafka_wire.Prelude.{
  ℕ, if◌then◌else◌, ◌==◌, List, [], ◌∷◌, Option, none, some, ◌==◌, length, take,
}
use kafka_wire.Prelude.Result.{Result, ok, err}
use kafka_wire.Wire.Sasl.{
  Crypto, ScramCreds, ScramServer, scram_iterations, scram_hash_size, scram_salt_len,
}

pub data LoadError : Type 0 where
  path_required unreadable users_empty : LoadError

-- "kafka-wire-scram-salt-key"
abbrev pub salt_key : List ℕ
salt_key =
    107 ∷ 97 ∷ 102 ∷ 107 ∷ 97 ∷ 45 ∷ 119 ∷ 105 ∷ 114 ∷ 101 ∷ 45 ∷ 115 ∷ 99 ∷ 114 ∷ 97 ∷ 109 ∷ 45
    ∷ 115 ∷ 97 ∷ 108 ∷ 116 ∷ 45 ∷ 107 ∷ 101 ∷ 121 ∷ []

-- "Client Key"
abbrev pub client_key_text : List ℕ
client_key_text = 67 ∷ 108 ∷ 105 ∷ 101 ∷ 110 ∷ 116 ∷ 32 ∷ 75 ∷ 101 ∷ 121 ∷ []

-- "Server Key"
abbrev pub server_key_text : List ℕ
server_key_text = 83 ∷ 101 ∷ 114 ∷ 118 ∷ 101 ∷ 114 ∷ 32 ∷ 75 ∷ 101 ∷ 121 ∷ []

module _ (c : Crypto) where
  unfoldable pub derive_salt : List ℕ → List ℕ
  derive_salt username = take scram_salt_len (c.hmac_sha256 salt_key username)

  unfoldable pub derive_creds : List ℕ → List ℕ → ScramCreds
  derive_creds username password =
      let salt = derive_salt username in
      let salted = c.pbkdf2 password salt scram_iterations scram_hash_size in
      record {
        salt = salt;
        iters = scram_iterations;
        stored_key = c.sha256_sum (c.hmac_sha256 salted client_key_text);
        server_key = c.hmac_sha256 salted server_key_text;
      }

  unfoldable pub derive_all : List (List ℕ × List ℕ) → ScramServer
  derive_all [] = []
  derive_all ((username, password) ∷ users) =
      (username, derive_creds username password) ∷ derive_all users

  -- The users that the file holds, or none where it is not read or not JSON.
  unfoldable pub load_scram_server :
      List ℕ → Option (List (List ℕ × List ℕ)) → Result LoadError ScramServer
  load_scram_server path parsed = if length path == 0 then err path_required else elim parsed [
    | none ↦ err unreadable
    | some users ↦ if length users == 0 then err users_empty else ok (derive_all users)
  ]
