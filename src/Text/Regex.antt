-- ===== src/Text/Regex.antt =====
-- Python's `re` as far as the source uses it: backtracking search in order of preference, with
-- greedy repetition, word boundaries and one-character look-around. The classes `\d`, `\w`, `\s` and
-- the folding of IGNORECASE follow the Unicode tables up to U+00FF.
pub mod Unmatched
use mottainai_ia.Base.{
  ℕ, zero, suc, ◌+◌, ◌≡◌, refl, Bool, true, false, not, ◌||◌, ◌&&◌, List, [], ◌∷◌, ◌++◌, Option,
  none, some, ltb, leb, ◌==◌, if◌then◌else◌, length, any,
}
use mathlib.Core.List.{flat_map}
use mottainai_ia.Text.Case.{Str, codes, lower_code, is_space}

pub data Regex : Type 0 where
  char : (ℕ → Bool) → Regex
  eps : Regex
  seq : Regex → Regex → Regex
  alt : Regex → Regex → Regex
  star : Regex → Regex
  boundary : Regex
  behind_not : (ℕ → Bool) → Regex
  ahead_not : (ℕ → Bool) → Regex

-- A place in the text: the character before it, and what follows.
abbrev pub Place : Type 0
Place = Option ℕ × Str

in_range : ℕ → ℕ → ℕ → Bool
in_range lo hi c = leb lo c && leb c hi

unfoldable pub is_digit : ℕ → Bool
unfolding in_range
is_digit c = in_range 48 57 c

unfoldable pub is_word : ℕ → Bool
unfolding in_range is_digit
is_word c =
    is_digit c
    || in_range 65 90 c
    || c == 95
    || in_range 97 122 c
    || c == 170
    || in_range 178 179 c
    || c == 181
    || in_range 185 186 c
    || in_range 188 190 c
    || in_range 192 214 c
    || in_range 216 246 c
    || in_range 248 255 c

holds : (ℕ → Bool) → Option ℕ → Bool
holds p none = false
holds p (some c) = p c

next : Str → Option ℕ
next [] = none
next (c ∷ s) = some c

-- As often as it goes, longest first; a round that consumes nothing ends the repetition.
repeat : (Place → List Place) → ℕ → Place → List Place
repeat once zero at = at ∷ []
repeat once (suc fuel) at =
    flat_map
      (λ (there : Place).
        let more = repeat once fuel there in
        if ltb (length there.1) (length at.1) then more else [])
      (once at)
    ++ at ∷ []

-- The places at which a match from a place can end, the preferred one first.
unfoldable pub ends : Regex → Place → List Place
unfolding holds next repeat is_word flat_map
ends (char p) (before, []) = []
ends (char p) (before, c ∷ s) = if p c then (some c, s) ∷ [] else []
ends eps at = at ∷ []
ends (seq r q) at = flat_map (ends q) (ends r at)
ends (alt r q) at = ends r at ++ ends q at
ends (star r) at = repeat (ends r) (length at.1) at
ends boundary (before, s) =
    let word_before = holds is_word before in
    let word_behind = holds is_word (next s) in
    if word_before && not word_behind || not word_before && word_behind
    then (before, s) ∷ []
    else []
ends (behind_not p) (before, s) = if holds p before then [] else (before, s) ∷ []
ends (ahead_not p) (before, s) = if holds p (next s) then [] else (before, s) ∷ []

first_end : Regex → Place → Option Str
unfolding ends
first_end r at = elim (ends r at) [ [] ↦ none | there ∷ rest ↦ some there.1 ]

-- `pattern.search(text) is not None`
search_from : Regex → Option ℕ → Str → Bool
unfolding first_end
search_from r before [] = elim (first_end r (before, [])) [ none ↦ false | some rest ↦ true ]
search_from r before (c ∷ s) = elim (first_end r (before, c ∷ s)) [
  | none ↦ search_from r (some c) s
  | some rest ↦ true
]

unfoldable pub found : Regex → Str → Bool
unfolding search_from
found r s = search_from r none s

-- The text between two places, and the character in front of the second.
consumed : Option ℕ → Str → ℕ → Str × Option ℕ
consumed before [] stop = ([], before)
consumed before (c ∷ s) stop =
    let (taken, last) = consumed (some c) s stop in
    if leb (length (c ∷ s)) stop then ([], before) else (c ∷ taken, last)

-- `pattern.sub(by, text)`, for a pattern that does not match the empty text.
sub_from : ℕ → Regex → Str → Option ℕ → Str → Str
unfolding first_end consumed
sub_from zero r by before s = s
sub_from (suc fuel) r by before [] = []
sub_from (suc fuel) r by before (c ∷ s) = elim (first_end r (before, c ∷ s)) [
  | none ↦ c ∷ sub_from fuel r by (some c) s
  | some rest ↦ by ++ sub_from fuel r by (consumed before (c ∷ s) (length rest)).1 rest
]

unfoldable pub sub : Regex → Str → Str → Str
unfolding sub_from
sub r by s = sub_from (length s) r by none s

-- `pattern.search(text).group(0)`
match_from : Regex → Option ℕ → Str → Option Str
unfolding first_end consumed
match_from r before [] = none
match_from r before (c ∷ s) = elim (first_end r (before, c ∷ s)) [
  | none ↦ match_from r (some c) s
  | some rest ↦ some (consumed before (c ∷ s) (length rest)).0
]

unfoldable pub group_zero : Regex → Str → Option Str
unfolding match_from
group_zero r s = match_from r none s

-- The pieces that patterns are written with.
abbrev pub opt : Regex → Regex
opt r = alt r eps

abbrev pub plus : Regex → Regex
plus r = seq r (star r)

abbrev pub times : ℕ → Regex → Regex
times zero r = eps
times (suc n) r = seq r (times n r)

infixr 60 ◌⋅◌
abbrev pub ◌⋅◌ : Regex → Regex → Regex
r ⋅ q = seq r q

infixr 55 ◌∣◌
abbrev pub ◌∣◌ : Regex → Regex → Regex
r ∣ q = alt r q

abbrev pub digit : Regex
digit = char is_digit

abbrev pub word : Regex
word = char is_word

abbrev pub space : Regex
space = char is_space

-- A character, and a text, without regard to case.
unfoldable pub same_letter : ℕ → ℕ → Bool
unfolding lower_code
same_letter a b = lower_code a == lower_code b

abbrev pub letter : ℕ → Regex
letter c = char (same_letter c)

abbrev pub text : Str → Regex
text [] = eps
text (c ∷ s) = seq (letter c) (text s)

tests : Unit {0}
unfolding found sub group_zero is_digit same_letter is_space
tests = tt

finds_word :
    found (boundary ⋅ text (codes "exec") ⋅ star space ⋅ text (codes "(")) (codes "run EXEC  (x)")
    ≡ true
unfolding tests
finds_word = refl

replaces_digits :
    sub (boundary ⋅ times 3 digit ⋅ boundary) (codes "*") (codes "a 123 4567 890")
    ≡ codes "a * 4567 *"
unfolding tests
replaces_digits = refl

takes_group :
    group_zero (text (codes "sou ") ⋅ plus word) (codes "eu sou gerente!")
    ≡ some (codes "sou gerente")
unfolding tests
takes_group = refl
