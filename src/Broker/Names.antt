-- ===== src/Broker/Names.antt =====
-- internal/broker/names.go: the check on topic and group names, which become file names. A name is the
-- list of its bytes.
mod Tests
use kafka_wire.Prelude.{
  ℕ, ◌≤◌, ◌<◌, ◌≡◌, ◌≢◌, ◌↔◌, ◌⊎◌, inl, inr, Bool, true, false, ◌&&◌, ◌||◌, List, [], ◌∷◌, All,
  length, ltb, leb, ◌==◌, if◌then◌else◌, arith, Bool-cases, refl,
}
use kafka_wire.Prelude.Result.{Result, ok, err, ◌>>=◌, ◌>>◌, fail_if}
use kafka_wire.Prelude.Map.{same, same_ne, ne_of_same}

abbrev pub max_name_length : ℕ
max_name_length = 249

pub data NameError : Type 0 where
  name_empty name_too_long name_directory name_character : NameError

abbrev pub dot : List ℕ
dot = 46 ∷ []

abbrev pub dot_dot : List ℕ
dot_dot = 46 ∷ (46 ∷ [])

-- The switch on one byte: letters and digits, then `.`, `_` and `-`.
unfoldable pub is_allowed : ℕ → Bool
is_allowed c =
    ((leb 97 c && leb c 122) || ((leb 65 c && leb c 90) || (leb 48 c && leb c 57)))
    || (c == 46 || (c == 95 || c == 45))

unfoldable pub check_characters : List ℕ → Result NameError (Unit {0})
check_characters [] = ok tt
check_characters (c ∷ rest) =
    let more = check_characters rest in if is_allowed c then more else err name_character

unfoldable pub validate_name : List ℕ → Result NameError (Unit {0})
validate_name name = do
  fail_if (length name == 0) name_empty
  fail_if (ltb max_name_length (length name)) name_too_long
  fail_if (same name dot || same name dot_dot) name_directory
  check_characters name

-- A byte that means nothing to a file system: a letter, a digit, `-`, `.` or `_`.
abbrev pub IsPlain : ℕ → Type 0
IsPlain c =
    ((97 ≤ c) × (c ≤ 122))
    ⊎ ((65 ≤ c) × (c ≤ 90))
    ⊎ ((48 ≤ c) × (c ≤ 57))
    ⊎ ((c ≡ 45) ⊎ (c ≡ 46) ⊎ (c ≡ 95))

is_allowed_iff : (c : ℕ) → (is_allowed c ≡ true) ↔ IsPlain c
unfolding is_allowed
is_allowed_iff c = ground arith

check_characters_iff : (name : List ℕ) → (check_characters name ≡ ok tt) ↔ All IsPlain name
unfolding check_characters
check_characters_iff [] = ((λ h. tt), (λ h. refl))
check_characters_iff (c ∷ rest) = ground (arith, is_allowed_iff c, check_characters_iff rest)

-- A name is accepted exactly if it has 1 to 249 bytes, is neither `.` nor `..`, and every byte is a
-- letter, a digit, `-`, `.` or `_`: no accepted name has a path separator or leads to another
-- directory.
pub validate_name_iff :
    (name : List ℕ)
    → (validate_name name ≡ ok tt) ↔ (
        (0 < length name)
        × (length name ≤ 249)
        × (name ≢ dot)
        × (name ≢ dot_dot)
        × All IsPlain name)
unfolding validate_name
validate_name_iff name = ground (
  arith,
  check_characters_iff name,
  ne_of_same name dot,
  ne_of_same name dot_dot,
  same_ne name dot,
  same_ne name dot_dot,
)
