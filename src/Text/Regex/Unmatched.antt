-- ===== src/Text/Regex/Unmatched.antt =====
-- A text in which a pattern is not found is left alone by a replacement.
use mottainai_ia.Base.{
  ℕ, zero, suc, ◌≡◌, refl, ap, false, [], ◌∷◌, Option, none, some, length, arith,
}
use mottainai_ia.Text.Case.{Str}
use mottainai_ia.Text.Regex.{Regex, search_from, first_end, found, sub_from, sub}

search-miss :
    (r : Regex) (before : Option ℕ) (c : ℕ) (s : Str)
    → search_from r before (c ∷ s) ≡ false
    → (first_end r (before, c ∷ s) ≡ none) × (search_from r (some c) s ≡ false)
unfolding search_from
search-miss r before c s e = ground arith

sub_from-miss :
    (fuel : ℕ) (r : Regex) (by : Str) (before : Option ℕ) (s : Str)
    → search_from r before s ≡ false
    → sub_from fuel r by before s ≡ s
unfolding sub_from
sub_from-miss zero r by before s e = refl
sub_from-miss (suc fuel) r by before [] e = refl
sub_from-miss (suc fuel) r by before (c ∷ s) e =
    let (here, later) = search-miss r before c s e in
    rw (here, sub_from) (ap (◌∷◌ c) (sub_from-miss fuel r by (some c) s later))

pub sub-eq_of_not-found : (r : Regex) (by s : Str) → found r s ≡ false → sub r by s ≡ s
unfolding found sub
sub-eq_of_not-found r by s e = sub_from-miss (length s) r by none s e
