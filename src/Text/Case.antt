-- ===== src/Text/Case.antt =====
-- `str.upper`, `str.lower` and `str.strip`. Case follows the Unicode tables up to U+00FF, which hold
-- all of Portuguese; a code point above is its own upper and lower case here.
use Prim.Native.Char.{code}
use mottainai_ia.Base.{
  ℕ, ◌+◌, ◌-◌, ◌≡◌, refl, Bool, not, ◌&&◌, ◌||◌, List, [], ◌∷◌, ◌++◌, String, leb, ◌==◌,
  if◌then◌else◌,
}
use mathlib.Core.List.{reverse}

abbrev pub Str : Type 0
Str = List ℕ

abbrev pub codes : String → Str
codes String.[] = []
codes (String.◌∷◌ c s) = code c ∷ codes s

abbrev in_range : ℕ → ℕ → ℕ → Bool
in_range lo hi c = leb lo c && leb c hi

-- Lower case of one code point.
unfoldable pub lower_code : ℕ → ℕ
lower_code c = if in_range 65 90 c || (in_range 192 222 c && not (c == 215)) then c + 32 else c

-- Upper case can be longer than one code point (U+00DF is SS).
unfoldable pub upper_code : ℕ → Str
upper_code c =
    if in_range 97 122 c || (in_range 224 254 c && not (c == 247))
    then (c - 32) ∷ []
    else if c == 181
    then 924 ∷ []
    else if c == 223
    then 83 ∷ 83 ∷ []
    else if c == 255
    then 376 ∷ []
    else c ∷ []

unfoldable pub lower : Str → Str
unfolding lower_code
lower [] = []
lower (c ∷ s) = lower_code c ∷ lower s

unfoldable pub upper : Str → Str
unfolding upper_code
upper [] = []
upper (c ∷ s) = upper_code c ++ upper s

-- `str.isspace` of one code point.
unfoldable pub is_space : ℕ → Bool
is_space c =
    in_range 9 13 c
    || in_range 28 32 c
    || c == 133
    || c == 160
    || c == 5760
    || in_range 8192 8202 c
    || c == 8232
    || c == 8233
    || c == 8239
    || c == 8287
    || c == 12288

unfoldable pub lstrip : Str → Str
unfolding is_space
lstrip [] = []
lstrip (c ∷ s) = let rest = lstrip s in if is_space c then rest else c ∷ s

unfoldable pub strip : Str → Str
unfolding lstrip
strip s = reverse (lstrip (reverse (lstrip s)))

upper_words : upper (codes "Gerente é") ≡ codes "GERENTE É"
unfolding upper
upper_words = refl

lower_words : lower (codes "PREVISÃO 7") ≡ codes "previsão 7"
unfolding lower
lower_words = refl

strip_words : strip (codes "  a b ") ≡ codes "a b"
unfolding strip
strip_words = refl
