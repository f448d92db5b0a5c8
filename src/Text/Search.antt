-- ===== src/Text/Search.antt =====
-- `==`, `in`, `str.startswith` on texts, and membership in a list of texts.
use mottainai_ia.Base.{
  ℕ, ◌≡◌, refl, ◌↔◌, Bool, true, false, ◌&&◌, ◌||◌, List, [], ◌∷◌, ◌++◌, ◌==◌, arith,
}
use mottainai_ia.Text.Case.{Str, codes}

unfoldable pub str_eq : Str → Str → Bool
str_eq [] [] = true
str_eq [] (d ∷ t) = false
str_eq (c ∷ s) [] = false
str_eq (c ∷ s) (d ∷ t) = c == d && str_eq s t

str_eq_sound : (s t : Str) → str_eq s t ≡ true → s ≡ t
unfolding str_eq
str_eq_sound [] [] h = refl
str_eq_sound [] (d ∷ t) h = ground arith
str_eq_sound (c ∷ s) [] h = ground arith
str_eq_sound (c ∷ s) (d ∷ t) h = ground (arith, str_eq_sound s t)

pub str_eq_refl : (s : Str) → str_eq s s ≡ true
unfolding str_eq
str_eq_refl [] = refl
str_eq_refl (c ∷ s) = ground (arith, str_eq_refl s)

pub str_eq_iff : (s t : Str) → (str_eq s t ≡ true) ↔ (s ≡ t)
str_eq_iff s t = (str_eq_sound s t, λ e. rw e (str_eq_refl t))

-- `x in xs` for a list or a set of texts.
unfoldable pub str_mem : Str → List Str → Bool
unfolding str_eq
str_mem x [] = false
str_mem x (y ∷ ys) = str_eq x y || str_mem x ys

unfoldable pub starts_with : Str → Str → Bool
starts_with s [] = true
starts_with [] (p ∷ ps) = false
starts_with (c ∷ s) (p ∷ ps) = c == p && starts_with s ps

-- `sub in s`
unfoldable pub str_contains : Str → Str → Bool
unfolding starts_with
str_contains sub [] = starts_with [] sub
str_contains sub (c ∷ s) = starts_with (c ∷ s) sub || str_contains sub s

-- `ch in s` for one character
unfoldable pub has_code : ℕ → Str → Bool
has_code ch [] = false
has_code ch (c ∷ s) = c == ch || has_code ch s

pub has_code-append : (ch : ℕ) (s t : Str) → has_code ch (s ++ t) ≡ (has_code ch s || has_code ch t)
unfolding has_code
has_code-append ch [] t = refl
has_code-append ch (c ∷ s) t = ground (arith, has_code-append ch s t)

contains_word : str_contains (codes "prev") (codes "a previsão") ≡ true
unfolding str_contains
contains_word = refl
