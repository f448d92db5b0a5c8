-- ===== src/Text/Decimal.antt =====
-- `str(n)` of an integer, as an f-string prints it, and why printed fields can be told apart.
use mottainai_ia.Base.{
  ℕ, zero, suc, ◌+◌, ◌-◌, ◌*◌, ◌/◌, ◌%◌, ◌≤◌, ◌<◌, ◌≡◌, refl, sym, ap, ◌∙◌, true, false, [], ◌∷◌,
  ◌++◌, ltb, if◌then◌else◌, arith,
}
use mottainai_ia.Base.Int.{ℤ, pos, negsuc}
use mottainai_ia.Text.Case.{Str, codes}
use mottainai_ia.Text.Search.{has_code}

-- The last digit is written first; the fuel bounds the digits.
emit : ℕ → ℕ → Str → Str
emit zero n out = out
emit (suc f) n out =
    let more = emit f (n / 10) ((48 + n % 10) ∷ out) in if ltb n 10 then (48 + n) ∷ out else more

unfoldable pub str_ℕ : ℕ → Str
unfolding emit
str_ℕ n = emit (suc n) n []

unfoldable pub str_ℤ : ℤ → Str
unfolding str_ℕ
str_ℤ (pos n) = str_ℕ n
str_ℤ (negsuc n) = 45 ∷ str_ℕ (suc n)

-- The number that a run of digits stands for.
value : ℕ → Str → ℕ
value acc [] = acc
value acc (c ∷ s) = value (acc * 10 + (c - 48)) s

value_step : (n : ℕ) → n / 10 * 10 + (48 + n % 10 - 48) ≡ n
value_step n = omega arith

value-emit : (f n : ℕ) (out : Str) → n < f → value 0 (emit f n out) ≡ value n out
unfolding emit value
value-emit zero n out h = elim h [ ]
value-emit (suc f) n out h =
    ground (
      arith,
      value-emit f (n / 10) ((48 + n % 10) ∷ out),
      ap (λ (k : ℕ). value k out) (value_step n),
    )

pub str_ℕ-injective : (m n : ℕ) → str_ℕ m ≡ str_ℕ n → m ≡ n
unfolding str_ℕ value
str_ℕ-injective m n e =
    sym (value-emit (suc m) m [] (omega arith))
    ∙ ap (value 0) e
    ∙ value-emit (suc n) n [] (omega arith)

abbrev pub IsDigit : ℕ → Type 0
IsDigit c = (48 ≤ c) × (c ≤ 57)

has_code-emit : (c f n : ℕ) (out : Str) → ¬ IsDigit c → has_code c (emit f n out) ≡ has_code c out
unfolding emit has_code
has_code-emit c zero n out h = refl
has_code-emit c (suc f) n out h = ground (arith, has_code-emit c f (n / 10) ((48 + n % 10) ∷ out))

pub has_code-str_ℕ : (c n : ℕ) → ¬ IsDigit c → has_code c (str_ℕ n) ≡ false
unfolding str_ℕ has_code
has_code-str_ℕ c n h = has_code-emit c (suc n) n [] h

-- A printed integer has no colon in it.
pub colon-str_ℤ : (z : ℤ) → has_code b':' (str_ℤ z) ≡ false
unfolding str_ℤ has_code
colon-str_ℤ (pos n) = has_code-str_ℕ 58 n (λ h. omega arith)
colon-str_ℤ (negsuc n) = has_code-str_ℕ 58 (suc n) (λ h. omega arith)

minus-str_ℕ : (n : ℕ) → has_code 45 (str_ℕ n) ≡ false
minus-str_ℕ n = has_code-str_ℕ 45 n (λ h. omega arith)

minus_head : (s : Str) → has_code 45 (45 ∷ s) ≡ true
unfolding has_code
minus_head s = refl

-- Two integers that print alike are equal.
pub str_ℤ-injective : (a b : ℤ) → str_ℤ a ≡ str_ℤ b → a ≡ b
unfolding str_ℤ
str_ℤ-injective (pos m) (pos n) e = ap pos (str_ℕ-injective m n e)
str_ℤ-injective (pos m) (negsuc n) e =
    cc (ap (has_code 45) e, minus-str_ℕ m, minus_head (str_ℕ (suc n)))
str_ℤ-injective (negsuc m) (pos n) e =
    cc (ap (has_code 45) e, minus-str_ℕ n, minus_head (str_ℕ (suc m)))
str_ℤ-injective (negsuc m) (negsuc n) e = ground (arith, str_ℕ-injective (suc m) (suc n))

-- What stands before the first colon, and what stands behind it, are determined.
pub colon_split :
    (s t u v : Str)
    → has_code b':' s ≡ false
    → has_code b':' t ≡ false
    → s ++ b':' ∷ u ≡ t ++ b':' ∷ v
    → (s ≡ t) × (u ≡ v)
unfolding has_code
colon_split [] [] u v hs ht e = ground arith
colon_split [] (d ∷ t) u v hs ht e = ground arith
colon_split (c ∷ s) [] u v hs ht e = ground arith
colon_split (c ∷ s) (d ∷ t) u v hs ht e = ground (arith, colon_split s t u v)

printed : str_ℤ (negsuc 41) ≡ codes "-42"
unfolding str_ℤ
printed = refl
