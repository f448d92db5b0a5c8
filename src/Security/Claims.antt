-- ===== src/Security/Claims.antt =====
-- app/security/auth.py: the claims of a token and the readings of single claims. PyJWT is not part
-- of the repository: it hands on the claims of a token that it has verified, or none. With version
-- 2.10 `sub` and `jti` are texts there.
use mottainai_ia.Base.{
  ℕ, ◌+◌, ◌*◌, ◌-◌, Bool, true, false, not, ◌&&◌, ◌||◌, ◌==◌, ◌≡◌, refl, List, [], ◌∷◌, Option,
  none, some, if◌then◌else◌, leb, length, all, any, drop,
}
use mottainai_ia.Base.Int.{ℤ, pos, leb_ℤ, ◌-ℤ◌}
use mottainai_ia.Text.Case.{Str, codes, strip, lower}
use mottainai_ia.Text.Search.{str_eq, starts_with}

-- A value of a claim; a float comes with what `int` cuts it to and whether it is not zero.
pub data Claim : Type 0 where
  string_claim : Str → Claim
  int_claim : ℤ → Claim
  float_claim : ℤ → Bool → Claim
  bool_claim : Bool → Claim
  other_claim : Claim

-- `none` stands for a missing or null claim, but for `usuario_id`, where it is a missing one.
pub record Claims : Type 0 where
  pub role : Claim
  pub sub : Str
  pub empresa_id : Claim
  pub exp : Claim
  pub use_claim : Option Claim
  pub jti : Option Str
  pub operational_identity : Option Claim
  pub usuario_id : Option Claim
  pub store_id : Option Claim

unfoldable pub is_figure : ℕ → Bool
is_figure c = leb 48 c && leb c 57

-- The digits of `int(text)`, which single underscores may part.
unfoldable pub figures : Bool → ℕ → Str → Option ℕ
unfolding is_figure
figures after_digit n [] = if after_digit then some n else none
figures after_digit n (c ∷ s) =
    let next = figures true (n * 10 + (c - 48)) s in
    let parted = figures false n s in
    if is_figure c then next else if (c == b'_') && after_digit then parted else none

unfoldable pub signed : Str → Option ℤ
unfolding figures
signed [] = none
signed (c ∷ s) =
    if c == b'-'
    then elim (figures false 0 s) [ none ↦ none | some n ↦ some (pos 0 -ℤ pos n) ]
    else if c == b'+'
    then elim (figures false 0 s) [ none ↦ none | some n ↦ some (pos n) ]
    else elim (figures false 0 (c ∷ s)) [ none ↦ none | some n ↦ some (pos n) ]

-- `int(value)` of a claim that is not a Boolean.
unfoldable pub to_int : Claim → Option ℤ
unfolding signed
to_int (string_claim s) = signed (strip s)
to_int (int_claim n) = some n
to_int (float_claim n nonzero) = some n
to_int (bool_claim b) = none
to_int other_claim = none

unfoldable pub at_least_one : Option ℤ → Option ℤ
at_least_one none = none
at_least_one (some n) = if leb_ℤ (pos 1) n then some n else none

-- `_positive_int`
unfoldable pub positive_int : Claim → Option ℤ
unfolding to_int at_least_one
positive_int claim = at_least_one (to_int claim)

abbrev pub allowed_roles : List Str
allowed_roles = codes "CLIENTE" ∷ codes "ESTOQUISTA" ∷ codes "GERENTE" ∷ codes "DONO" ∷ []

abbrev placeholder_prefixes : List Str
placeholder_prefixes =
    codes "replace_"
    ∷ codes "change_me"
    ∷ codes "your_"
    ∷ codes "example_"
    ∷ codes "gere-um-segredo"
    ∷ []

unfoldable pub is_configured_jwt_secret : Str → Bool
is_configured_jwt_secret secret =
    let normalized = lower (strip secret) in
    leb 32 (length normalized) && not (any (λ p. starts_with normalized p) placeholder_prefixes)

unfoldable pub is_hex : ℕ → Bool
is_hex c = leb 48 c && leb c 57 || (leb 65 c && leb c 70 || leb 97 c && leb c 102)

-- `fullmatch(r"EMAIL_SHA256_[A-Fa-f0-9]{64}", …)`
unfoldable pub is_email_hash : Str → Bool
unfolding is_hex
is_email_hash s =
    starts_with s (codes "EMAIL_SHA256_") && (length (drop 13 s) == 64 && all is_hex (drop 13 s))

-- The check of `use`.
unfoldable pub for_access : Option Claim → Bool
for_access none = true
for_access (some (string_claim s)) = str_eq s (codes "access")
for_access (some _) = false

-- The identity that a token may carry: the outer `none` is one that is refused.
unfoldable pub carried_identity : Option Claim → Option (Option Str)
unfolding is_email_hash
carried_identity none = some none
carried_identity (some (string_claim s)) = if is_email_hash s then some (some s) else none
carried_identity (some _) = none

-- `_positive_int(claims["store_id"]) if … is not None else None`
unfoldable pub carried_store : Option Claim → Option (Option ℤ)
unfolding positive_int
carried_store none = some none
carried_store (some claim) = elim (positive_int claim) [ none ↦ none | some n ↦ some (some n) ]

abbrev pub is_truthy : Claim → Bool
is_truthy (string_claim []) = false
is_truthy (string_claim (c ∷ s)) = true
is_truthy (int_claim n) = not (leb_ℤ n (pos 0) && leb_ℤ (pos 0) n)
is_truthy (float_claim n nonzero) = nonzero
is_truthy (bool_claim b) = b
is_truthy other_claim = true

-- `_positive_int(exp) if exp else None`
unfoldable pub expiry : Claim → Option (Option ℤ)
unfolding positive_int
expiry claim =
    if is_truthy claim
    then elim (positive_int claim) [ none ↦ none | some n ↦ some (some n) ]
    else some none

reads_number : positive_int (string_claim (codes " 1_042 ")) ≡ some (pos 1042)
unfolding positive_int strip figures
reads_number = refl

refuses_zero : positive_int (int_claim (pos 0)) ≡ none
unfolding positive_int
refuses_zero = refl
