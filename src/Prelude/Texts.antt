-- ===== src/Prelude/Texts.antt =====
-- `String.prototype.trim` and truthiness of texts.
use Prim.Native.Nat.{ℕ, zero, suc, ◌-◌}
use Prim.Native.Char.{Char, code}
use Prim.Native.String.{String, [], ◌∷◌}
use mathlib.Core.Path.{◌≡◌, refl}
use mathlib.Core.Bool.{Bool, true, false, ◌&&◌, ◌||◌}
use mathlib.Core.Option.{Option, none, some}
use fg_details_to_be_added_f.Prelude.Tests.{leb, eqb, if◌then◌else◌}

-- `s !== ""`
abbrev pub is_truthy : String → Bool
is_truthy [] = false
is_truthy (c ∷ s) = true

-- `Boolean(x)` of an optional text.
abbrev pub is_present : Option String → Bool
is_present none = false
is_present (some s) = is_truthy s

-- The code points that `trim` removes: WhiteSpace and LineTerminator of ECMAScript.
is_space : ℕ → Bool
is_space c =
    (leb 9 c && leb c 13)
    || eqb c 32
    || eqb c 160
    || eqb c 0x1680
    || (leb 0x2000 c && leb c 0x200a)
    || eqb c 0x2028
    || eqb c 0x2029
    || eqb c 0x202f
    || eqb c 0x205f
    || eqb c 0x3000
    || eqb c 0xfeff

trim_start : String → String
trim_start [] = ""
trim_start (c ∷ s) = let rest = trim_start s in if is_space (code c) then rest else c ∷ s

-- A blank goes if all behind it went.
cut_blank : Char → String → String
cut_blank c [] = if is_space (code c) then "" else c ∷ ""
cut_blank c (d ∷ s) = c ∷ d ∷ s

trim_end : String → String
trim_end [] = ""
trim_end (c ∷ s) = cut_blank c (trim_end s)

unfoldable pub trim : String → String
unfolding trim_start trim_end cut_blank is_space
trim s = trim_end (trim_start s)

-- `!!x?.trim()`
unfoldable pub has_text : Option String → Bool
has_text none = false
has_text (some s) = is_truthy (trim s)

abbrev char_at : ℕ → String → Char → Char
char_at n [] other = other
char_at zero (c ∷ s) other = c
char_at (suc n) (c ∷ s) other = char_at n s other

lower_char : Char → Char
lower_char c =
    if leb 65 (code c) && leb (code c) 90
    then char_at (code c - 65) "abcdefghijklmnopqrstuvwxyz" c
    else c

-- `toLowerCase` of a text in ASCII
unfoldable pub to_lower : String → String
unfolding lower_char
to_lower [] = ""
to_lower (c ∷ s) = lower_char c ∷ to_lower s

abbrev starts_with : String → String → Bool
starts_with s [] = true
starts_with [] (d ∷ t) = false
starts_with (c ∷ s) (d ∷ t) = eqb (code c) (code d) && starts_with s t

-- `s.includes(t)`
unfoldable pub contains : String → String → Bool
contains [] t = starts_with "" t
contains (c ∷ s) t = starts_with (c ∷ s) t || contains s t

trim_test : trim "  a b\n" ≡ "a b"
unfolding trim
trim_test = refl
