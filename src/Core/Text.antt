-- ===== src/Core/Text.antt =====
-- The text tests of the sources: `not value.strip()` and `len(value)`.
use Prim.Native.Char.{Char, code}
use Prim.Native.String.{String}
use onwlms.Prelude.{
  Bool, List, Option, [], contains, false, if◌then◌else◌, leb, ltb, nat_beq, nat_eq, none, pair_eq,
  some, string_eq, suc, true, ℕ, ◌&&◌, ◌||◌, ◌∷◌,
}

-- The code points that `str.isspace` accepts, which are those that `str.strip` removes.
abbrev spaces : List ℕ
spaces = 32 ∷ 133 ∷ 160 ∷ 5760 ∷ 8232 ∷ 8233 ∷ 8239 ∷ 8287 ∷ 12288 ∷ []

is_space : ℕ → Bool
is_space c =
    contains c spaces
    || (leb 9 c && leb c 13)
    || (leb 28 c && leb c 31)
    || (leb 8192 c && leb c 8202)

-- `not value.strip()`
unfoldable pub is_blank : String → Bool
unfolding is_space
is_blank String.[] = true
is_blank (String.◌∷◌ c s) = is_space (code c) && is_blank s

-- `not (value or "").strip()`
abbrev pub is_blank_or_none : Option String → Bool
is_blank_or_none none = true
is_blank_or_none (some s) = is_blank s

-- `len(value)`: the number of code points
unfoldable pub text_length : String → ℕ
text_length String.[] = 0
text_length (String.◌∷◌ c s) = suc (text_length s)

-- `not value`
abbrev pub is_empty_or_none : Option String → Bool
is_empty_or_none none = true
is_empty_or_none (some s) = nat_beq (text_length s) 0

strip_left : String → String
unfolding is_space
strip_left String.[] = String.[]
strip_left (String.◌∷◌ c s) = if is_space (code c) then strip_left s else String.◌∷◌ c s

-- A space before nothing but spaces goes.
trim_before : Char → String → String
unfolding is_space
trim_before c String.[] = if is_space (code c) then String.[] else String.◌∷◌ c String.[]
trim_before c (String.◌∷◌ d s) = String.◌∷◌ c (String.◌∷◌ d s)

strip_right : String → String
unfolding trim_before
strip_right String.[] = String.[]
strip_right (String.◌∷◌ c s) = trim_before c (strip_right s)

-- `value.strip()`
unfoldable pub strip : String → String
unfolding strip_left strip_right
strip s = strip_left (strip_right s)

-- `a < b`: by code points
unfoldable pub precedes : String → String → Bool
precedes String.[] String.[] = false
precedes String.[] (String.◌∷◌ d t) = true
precedes (String.◌∷◌ c s) String.[] = false
precedes (String.◌∷◌ c s) (String.◌∷◌ d t) =
    ltb (code c) (code d) || (nat_beq (code c) (code d) && precedes s t)

infixr 60 ◌+s◌
-- `value + other`
unfoldable pub ◌+s◌ : String → String → String
String.[] +s t = t
(String.◌∷◌ c s) +s t = String.◌∷◌ c (s +s t)
