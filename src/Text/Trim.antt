-- ===== src/Text/Trim.antt =====
-- When `str.strip` leaves a text as it is.
use mottainai_ia.Base.{
  ℕ, ◌≡◌, refl, sym, ap, ◌∙◌, subst, inl, inr, Bool, true, false, not, [], ◌∷◌, ◌++◌, reverse,
  reverse-cons, append-nil, append_assoc, Bool-cases, arith,
}
use mottainai_ia.Text.Case.{Str, codes, is_space, lstrip, strip}
use mottainai_ia.Text.Search.{has_code}
use mottainai_ia.Text.Split.{ends_in}

-- A first code point that is no space.
abbrev pub solid_start : Str → Bool
solid_start [] = false
solid_start (c ∷ s) = not (is_space c)

abbrev marks : Str
marks = codes ".!?"

pub solid_start-append : (s t : Str) → solid_start s ≡ true → solid_start (s ++ t) ≡ true
solid_start-append [] t h = absurd (cc h)
solid_start-append (c ∷ s) t h = h

lstrip-solid : (s : Str) → solid_start s ≡ true → lstrip s ≡ s
unfolding lstrip
lstrip-solid [] h = refl
lstrip-solid (c ∷ s) h = ground (arith, h)

-- What `lstrip` leaves starts with no space.
data Trimmed : Str → Type 0 where
  nothing : Trimmed []
  solid : (c : ℕ) (s : Str) → is_space c ≡ false → Trimmed (c ∷ s)

lstrip-Trimmed : (s : Str) → Trimmed (lstrip s)
unfolding lstrip
lstrip-Trimmed [] = nothing
lstrip-Trimmed (c ∷ s) = elim (Bool-cases (is_space c)) [
  | inl space ↦ rw space (lstrip-Trimmed s)
  | inr none_there ↦ rw none_there (solid c s none_there)
]

reverse-snoc : (s : Str) (c : ℕ) → reverse (s ++ (c ∷ [])) ≡ c ∷ reverse s
reverse-snoc [] c = refl
reverse-snoc (d ∷ s) c =
    reverse-cons d (s ++ (c ∷ []))
    ∙ ap (λ t. t ++ (d ∷ [])) (reverse-snoc s c)
    ∙ ap (λ t. c ∷ t) (sym (reverse-cons d s))

reverse_twice : (s : Str) → reverse (reverse s) ≡ s
reverse_twice [] = refl
reverse_twice (c ∷ s) =
    ap reverse (reverse-cons c s) ∙ reverse-snoc (reverse s) c ∙ ap (λ t. c ∷ t) (reverse_twice s)

-- `lstrip` of the reversed text leaves a prefix.
prefix_left : (s : Str) → (u : Str) × (reverse (lstrip s) ++ u ≡ reverse s)
unfolding lstrip
prefix_left [] = ([], refl)
prefix_left (c ∷ s) = elim (Bool-cases (is_space c)) [
  | inr none_there ↦ rw none_there ([], append-nil _)
  | inl space ↦
      let (u, e) = prefix_left s in
      rw space (
        u ++ (c ∷ []),
        sym (append_assoc (reverse (lstrip s)) u (c ∷ []))
            ∙ ap (λ t. t ++ (c ∷ [])) e
            ∙ sym (reverse-cons c s),
      )
]

prefix-Trimmed : (s u : Str) → Trimmed (s ++ u) → Trimmed s
prefix-Trimmed [] u h = nothing
prefix-Trimmed (c ∷ s) u (solid _ _ h) = solid c s h

strip-Trimmed : (s : Str) → Trimmed (strip s)
unfolding strip
strip-Trimmed s =
    let (u, e) = prefix_left (reverse (lstrip s)) in
    prefix-Trimmed _ u (subst Trimmed (sym (e ∙ reverse_twice (lstrip s))) (lstrip-Trimmed s))

-- What `strip` leaves is empty or starts with no space.
pub strip-solid : (s : Str) (c : ℕ) (t : Str) → strip s ≡ c ∷ t → solid_start (strip s) ≡ true
strip-solid s c t e = ap solid_start e ∙ starts (subst Trimmed e (strip-Trimmed s))
  where
    starts : Trimmed (c ∷ t) → solid_start (c ∷ t) ≡ true
    starts (solid _ _ h) = rw h refl

mark-solid : (c : ℕ) → has_code c marks ≡ true → is_space c ≡ false
unfolding has_code is_space
mark-solid c h = ground (arith, h)

ends_in-solid : (s : Str) → ends_in marks s ≡ true → solid_start (reverse s) ≡ true
unfolding ends_in
ends_in-solid [] h = absurd (cc h)
ends_in-solid (c ∷ []) h = rw (mark-solid c h) refl
ends_in-solid (c ∷ d ∷ s) h =
    subst (λ t. solid_start t ≡ true) (sym (reverse-cons c (d ∷ s)))
      (solid_start-append (reverse (d ∷ s)) (c ∷ []) (ends_in-solid (d ∷ s) h))

-- A text that starts with no space and ends in a mark.
pub strip-eq : (s : Str) → solid_start s ≡ true → ends_in (codes ".!?") s ≡ true → strip s ≡ s
unfolding strip
strip-eq s starts ends =
    ap (λ t. reverse (lstrip (reverse t))) (lstrip-solid s starts)
    ∙ ap reverse (lstrip-solid (reverse s) (ends_in-solid s ends))
    ∙ reverse_twice s

pub ends_in-append : (m s t : Str) → ends_in m t ≡ true → ends_in m (s ++ t) ≡ true
unfolding ends_in
ends_in-append m [] t h = h
ends_in-append m (c ∷ []) [] h = absurd (cc h)
ends_in-append m (c ∷ []) (d ∷ t) h = h
ends_in-append m (c ∷ d ∷ s) t h = ends_in-append m (d ∷ s) t h
