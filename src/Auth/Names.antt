-- ===== src/Auth/Names.antt =====
-- The name of a user as it is given (`normalize_username` and `validate_password`,
-- apps/api/src/auth.rs).
use task_harbor.Base.{
  ℕ, ◌+◌, ◌≡◌, refl, sym, Bool, true, ◌&&◌, Option, none, some, [], ◌∷◌, map, arith, ok, leb,
  if◌then◌else◌,
}
use task_harbor.Core.{Text, trim, byte_length}
use task_harbor.Auth.{validate_username, are_name_characters, are_name_rest, is_name_start}

-- `char::to_ascii_lowercase`.
unfoldable pub ascii_lower : ℕ → ℕ
ascii_lower c = if leb b'A' c && leb c b'Z' then c + 32 else c

unfoldable pub normalize_username : Text → Option Text
unfolding ascii_lower
normalize_username value =
    let lowered = map ascii_lower (trim value) in
    if leb 3 (byte_length lowered) && leb (byte_length lowered) 32 && are_name_characters lowered
    then some lowered
    else none

unfoldable pub validate_password : Text → Bool
validate_password password = leb 12 (byte_length password) && leb (byte_length password) 128

-- A lowercase letter, a digit, and the two signs are their own lowercase.
rest_lower : (cs : Text) → are_name_rest cs ≡ true → map ascii_lower cs ≡ cs
unfolding are_name_rest is_name_start ascii_lower
rest_lower [] h = refl
rest_lower (c ∷ cs) h = ground (arith, rest_lower cs)

name_lower : (cs : Text) → are_name_characters cs ≡ true → map ascii_lower cs ≡ cs
unfolding are_name_characters are_name_rest is_name_start ascii_lower
name_lower [] h = refl
name_lower (c ∷ cs) h = ground (arith, rest_lower cs)

-- A name that the API lets through is one that the repository accepts, and it is what the API makes
-- of it: the trimmed text in lowercase, and the same in lowercase again.
pub normalize_username-validates :
    (value username : Text)
    → normalize_username value ≡ some username
    → (validate_username username ≡ ok tt)
      × (username ≡ map ascii_lower (trim value))
      × (map ascii_lower username ≡ username)
unfolding normalize_username validate_username
normalize_username-validates value username h =
    let same : map ascii_lower (trim value) ≡ username = ground arith in
    let valid : (leb 3 (byte_length username)
          && leb (byte_length username) 32
          && are_name_characters username)
        ≡ true =
      rw (← same) (ground arith) in
    (ground arith, sym same, name_lower username (ground arith))
