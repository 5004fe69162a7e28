-- ===== src/Accounts/Username.antt =====
-- packages/shared/src/username.ts. `toLowerCase` is that of ASCII: the DTOs admit ASCII usernames only.
use Prim.Native.Nat.{ℕ, suc}
use Prim.Native.Char.{Char, code}
use Prim.Native.String.{String, [], ◌∷◌}
use fg_details_to_be_added_f.Prelude.{Bool, true, ◌&&◌, ◌||◌, leb, eqb, trim, to_lower}

-- normalizeUsername
unfoldable pub normalize_username : String → String
unfolding to_lower trim
normalize_username raw = to_lower (trim raw)

-- `[a-z0-9._-]`
abbrev is_username_char : Char → Bool
is_username_char c =
    (leb 97 (code c) && leb (code c) 122)
    || (leb 48 (code c) && leb (code c) 57)
    || eqb (code c) 46
    || eqb (code c) 95
    || eqb (code c) 45

abbrev pub text_length : String → ℕ
text_length [] = 0
text_length (c ∷ s) = suc (text_length s)

abbrev every_char : (Char → Bool) → String → Bool
every_char p [] = true
every_char p (c ∷ s) = p c && every_char p s

-- isValidUsername: USERNAME_PATTERN
unfoldable pub is_valid_username : String → Bool
is_valid_username s =
    every_char is_username_char s && leb 4 (text_length s) && leb (text_length s) 40
