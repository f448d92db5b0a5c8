-- ===== src/Text/Split.antt =====
-- `str.split` with a separator, `str.endswith` with a tuple of characters, and `str.replace` of one
-- character.
use mottainai_ia.Base.{
  ℕ, zero, suc, ◌-◌, ◌≡◌, refl, Bool, true, false, List, [], ◌∷◌, ◌++◌, length, ◌==◌, if◌then◌else◌,
}
use mottainai_ia.Text.Case.{Str, codes}
use mottainai_ia.Text.Search.{starts_with, has_code}

-- The first field and the others; `skip` code points of a separator are still to be passed.
unfoldable pub split_from : Str → ℕ → Str → Str × List Str
split_from sep skip [] = ([], [])
split_from sep (suc skip) (c ∷ s) = split_from sep skip s
split_from sep zero (c ∷ s) =
    let cut = starts_with (c ∷ s) sep in
    let rest = split_from sep (if cut then length sep - 1 else 0) s in
    if cut then ([], rest.0 ∷ rest.1) else (c ∷ rest.0, rest.1)

unfoldable pub split : Str → Str → List Str
split sep s = (split_from sep 0 s).0 ∷ (split_from sep 0 s).1

unfoldable pub ends_in : Str → Str → Bool
ends_in marks [] = false
ends_in marks (c ∷ []) = has_code c marks
ends_in marks (c ∷ d ∷ s) = ends_in marks (d ∷ s)

unfoldable pub replace_code : ℕ → ℕ → Str → Str
replace_code old new [] = []
replace_code old new (c ∷ s) = (if c == old then new else c) ∷ replace_code old new s

-- `sep.join(fields)`
unfoldable pub join : Str → List Str → Str
join sep [] = []
join sep (x ∷ []) = x
join sep (x ∷ y ∷ rest) = x ++ (sep ++ join sep (y ∷ rest))

splits_fields : split (codes ". ") (codes "a. b.. c") ≡ codes "a" ∷ codes "b." ∷ codes "c" ∷ []
unfolding split split_from starts_with
splits_fields = refl

ends_in_mark : ends_in (codes ".!?") (codes "Oi!") ≡ true
unfolding ends_in has_code
ends_in_mark = refl
