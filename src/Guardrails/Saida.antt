-- ===== src/Guardrails/Saida.antt =====
-- app/guardrails/saida.py: what a response must pass before a user sees it.
pub mod Released
use mottainai_ia.Base.{
  ℕ, Bool, true, false, List, [], ◌∷◌, String, ltb, if◌then◌else◌, length, ◌||◌, ◌==◌,
}
use mottainai_ia.Text.Case.{Str, codes, lower_code, is_space}
use mottainai_ia.Text.Regex.{
  Regex, char, boundary, star, eps, ◌⋅◌, ◌∣◌, opt, plus, times, digit, space, letter, text,
  is_digit, is_word, found, sub,
}

abbrev pub cpf : Regex
cpf =
    boundary
    ⋅ times 3 digit
    ⋅ opt (letter b'.')
    ⋅ times 3 digit
    ⋅ opt (letter b'.')
    ⋅ times 3 digit
    ⋅ opt (letter b'-')
    ⋅ times 2 digit
    ⋅ boundary

abbrev pub card : Regex
card =
    boundary
    ⋅ times 4 digit
    ⋅ opt space
    ⋅ times 4 digit
    ⋅ opt space
    ⋅ times 4 digit
    ⋅ opt space
    ⋅ times 4 digit
    ⋅ boundary

abbrev between : ℕ → ℕ → ℕ → Bool
between lo hi c = if ltb c lo then false else if ltb hi c then false else true

unfoldable pub is_letter : ℕ → Bool
is_letter c = between 97 122 (lower_code c)

-- `[A-Z0-9._%+-]` and `[A-Z0-9.-]` under IGNORECASE
unfoldable pub is_local : ℕ → Bool
unfolding is_letter
is_local c =
    is_letter c || is_digit c || c == b'.' || c == b'_' || c == b'%' || c == b'+' || c == b'-'

unfoldable pub is_domain : ℕ → Bool
unfolding is_letter
is_domain c = is_letter c || is_digit c || c == b'.' || c == b'-'

-- `[A-Z|a-z]` also takes a bar.
unfoldable pub is_letter_or_bar : ℕ → Bool
unfolding is_letter
is_letter_or_bar c = is_letter c || c == b'|'

abbrev pub email : (ℕ → Bool) → Regex
email top =
    boundary
    ⋅ plus (char is_local)
    ⋅ letter b'@'
    ⋅ plus (char is_domain)
    ⋅ letter b'.'
    ⋅ char top
    ⋅ plus (char top)
    ⋅ boundary

abbrev pub cnpj : Regex
cnpj =
    boundary
    ⋅ times 2 digit
    ⋅ letter b'.'
    ⋅ times 3 digit
    ⋅ letter b'.'
    ⋅ times 3 digit
    ⋅ letter b'/'
    ⋅ times 4 digit
    ⋅ letter b'-'
    ⋅ times 2 digit
    ⋅ boundary

-- `\(\d{2}\)\s?\d{4,5}-?\d{4}`
abbrev phone : Regex
phone =
    letter b'('
    ⋅ times 2 digit
    ⋅ letter b')'
    ⋅ opt space
    ⋅ times 4 digit
    ⋅ opt digit
    ⋅ opt (letter b'-')
    ⋅ times 4 digit

abbrev pub pii_patterns : Regex
pii_patterns = cpf ∣ card ∣ email is_letter_or_bar ∣ phone ∣ cnpj

unfoldable pub is_underscore_or_space : ℕ → Bool
is_underscore_or_space c = c == b'_' || is_space c

abbrev pub internal_leak_patterns : Regex
internal_leak_patterns =
    text (codes "senha")
    ∣ text (codes "password")
    ∣ text (codes "secret")
    ∣ text (codes "token")
    ∣ text (codes "api") ⋅ opt (char is_underscore_or_space) ⋅ text (codes "key")
    ∣ text (codes "private") ⋅ opt (char is_underscore_or_space) ⋅ text (codes "key")
    ∣ text (codes "hash")

abbrev pub max_response_len : ℕ
max_response_len = 8192

pub record SaidaResult : Type 0 where
  pub safe : Bool
  pub output : Str
  pub warnings : List Str

abbrev pub leak_output : Str
leak_output = codes "Não posso fornecer essa informação."

abbrev pub too_long_output : Str
too_long_output =
    codes
      "A análise ficou extensa demais. Peça um resumo ou selecione uma loja ou produto para detalhar."

-- Steps 3 and 4, on what step 2 leaves. A response is always a text here.
unfoldable pub release : Str → List Str → SaidaResult
release output warnings =
    if found internal_leak_patterns output
    then record {
      safe = false;
      output = leak_output;
      warnings = codes "Resposta bloqueada: possível vazamento de dado interno." ∷ [];
    }
    else if ltb max_response_len (length output)
    then record {
      safe = false;
      output = too_long_output;
      warnings = codes "Resposta bloqueada por exceder limite de tamanho." ∷ [];
    }
    else record { safe = true; output = output; warnings = warnings }

unfoldable pub guardrail_saida : Str → SaidaResult
unfolding release
guardrail_saida response =
    if found pii_patterns response
    then release (sub pii_patterns (codes "[INFORMAÇÃO PROTEGIDA]") response)
        (codes "PII detectado e removido da resposta." ∷ [])
    else release response []
