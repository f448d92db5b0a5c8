-- ===== src/Cache/RateLimit/Scopes.antt =====
-- The budgets of the endpoints.
use mottainai_ia.Base.{
  ◌≡◌, ◌==◌, refl, inl, inr, true, false, not, ◌||◌, [], ◌∷◌, keep, all, arith, Bool-cases,
}
use mottainai_ia.Base.Int.{ℤ}
use mottainai_ia.Text.Case.{Str}
use mottainai_ia.Text.Search.{has_code}
use mottainai_ia.Text.Regex.{is_word}
use mottainai_ia.Cache.Keyspace
use mottainai_ia.Cache.Keyspace.Distinct.{endpoint_rate_limit-injective}
use mottainai_ia.Cache.RateLimit.{is_scope}

colon_no_word : is_word b':' ≡ false
unfolding is_word
colon_no_word = refl

words_no_colon :
    (s : Str)
    → all is_word (keep (λ c. not (c == b'-' || c == b'_')) s) ≡ true
    → has_code b':' s ≡ false
unfolding has_code
words_no_colon [] h = refl
words_no_colon (c ∷ s) h = elim (Bool-cases (c == b':')) [
  | inr other ↦ ground (arith, words_no_colon s)
  | inl colon ↦ let same : c ≡ b':' = ground arith in ground (arith, same, colon_no_word)
]

is_scope-colon : (s : Str) → is_scope s ≡ true → has_code b':' s ≡ false
unfolding is_scope
is_scope-colon s h = words_no_colon s (ground arith)

-- Two calls for endpoints whose scopes are accepted share a budget only if they are for the same
-- scope, company and user.
pub endpoint_budgets-distinct :
    (scope scope' : Str) (empresa_id empresa_id' usuario_id usuario_id' : ℤ)
    → is_scope scope ≡ true
    → is_scope scope' ≡ true
    → Keyspace.endpoint_rate_limit scope empresa_id usuario_id
      ≡ Keyspace.endpoint_rate_limit scope' empresa_id' usuario_id'
    → (scope ≡ scope') × (empresa_id ≡ empresa_id') × (usuario_id ≡ usuario_id')
endpoint_budgets-distinct scope scope' e e' u u' h h' same =
    endpoint_rate_limit-injective scope scope' e e' u u' (is_scope-colon scope h)
      (is_scope-colon scope' h') same
