-- ===== src/Guardrails/Entrada.antt =====
-- app/guardrails/entrada.py: what a message must pass before any agent sees it. An exception of
-- Redis is not caught there and ends the request; it is not modelled.
pub mod Admitted
use mottainai_ia.Base.{
  ℕ, Bool, true, false, not, List, [], ◌∷◌, ◌++◌, Option, none, some, ltb, if◌then◌else◌, length,
  ◌||◌, ◌==◌,
}
use mottainai_ia.Base.Int.{ℤ}
use mottainai_ia.Text.Case.{Str, codes, strip, is_space}
use mottainai_ia.Text.Decimal.{str_ℕ}
use mottainai_ia.Text.Regex.{
  Regex, char, boundary, behind_not, ahead_not, star, eps, ◌⋅◌, ◌∣◌, opt, plus, times, digit, word,
  space, letter, text, is_digit, same_letter, found, sub,
}
use mottainai_ia.Guardrails.Saida.{cpf, card, email, is_letter}
use mottainai_ia.Cache.SortedSets.{SortedSets}
use mottainai_ia.Cache.RateLimit.{RateLimitResult, RateLimitSettings, Call, check_rate_limit}

unfoldable pub is_not_close : ℕ → Bool
is_not_close c = not (c == b'>')

abbrev injection_patterns : Regex
injection_patterns =
    text (codes "ignore ")
      ⋅ (text (codes "previous") ∣ text (codes "all") ∣ text (codes "prior"))
      ⋅ text (codes " instruction")
      ⋅ opt (letter b's')
    ∣ text (codes "you are now")
    ∣ text (codes "new system prompt")
    ∣ text (codes "jailbreak")
    ∣ text (codes "act as ")
      ⋅ opt (text (codes "a") ⋅ opt (letter b'n') ⋅ text (codes " "))
      ⋅ (text (codes "unrestricted") ∣ text (codes "evil") ∣ text (codes "dan"))
    ∣ text (codes "disregard ")
      ⋅ opt (text (codes "all ") ∣ text (codes "your "))
      ⋅ text (codes "instruction")
      ⋅ opt (letter b's')
    ∣ text (codes "<")
      ⋅ star space
      ⋅ text (codes "script")
      ⋅ star (char is_not_close)
      ⋅ text (codes ">")
    ∣ boundary ⋅ text (codes "exec") ⋅ star space ⋅ text (codes "(")
    ∣ boundary ⋅ text (codes "eval") ⋅ star space ⋅ text (codes "(")
    ∣ text (codes "drop") ⋅ plus space ⋅ text (codes "table")
    ∣ text (codes "delete") ⋅ plus space ⋅ text (codes "from")
    ∣ text (codes "update") ⋅ plus space ⋅ plus word ⋅ plus space ⋅ text (codes "set")

unfoldable pub is_dash_or_space : ℕ → Bool
is_dash_or_space c = c == b'-' || is_space c

abbrev phone : Regex
phone =
    behind_not is_digit
    ⋅ opt (opt (letter b'+') ⋅ text (codes "55") ⋅ opt space)
    ⋅ opt (opt (letter b'(') ⋅ times 2 digit ⋅ opt (letter b')') ⋅ opt space)
    ⋅ opt (letter b'9')
    ⋅ times 4 digit
    ⋅ opt (char is_dash_or_space)
    ⋅ times 4 digit
    ⋅ ahead_not is_digit

abbrev sensitive_patterns : Regex
sensitive_patterns = cpf ∣ card ∣ email is_letter ∣ phone

pub record GuardrailResult : Type 0 where
  pub allowed : Bool
  pub reason : Option Str
  pub sanitized_input : Option Str
  pub code : Option Str

abbrev pub blocked : Str → Option Str → GuardrailResult
blocked reason code = record {
  allowed = false;
  reason = some reason;
  sanitized_input = none;
  code = code;
}

unfoldable pub is_blank : Str → Bool
is_blank s = length s == 0 || length (strip s) == 0

unfoldable pub sanitize : Str → Str
sanitize s = sub sensitive_patterns (codes "[DADO_REMOVIDO]") s

unfoldable pub injected : Str → Bool
injected s = found injection_patterns s

abbrev pub rate_limited : Str
rate_limited = codes "rate_limited"

abbrev limit_reason : ℕ → Str
limit_reason rpm =
    codes "Rate limit excedido (" ++ (str_ℕ rpm ++ codes " req/min). Tente em instantes.")

-- The rate limit is step 4: `c` is the call that it makes.
unfoldable pub limited_input : RateLimitSettings → Str → RateLimitResult → GuardrailResult
limited_input settings user_input r =
    if r.allowed
    then record {
      allowed = true;
      reason = none;
      sanitized_input = some (sanitize user_input);
      code = none;
    }
    else blocked (limit_reason settings.rate_limit_rpm) (some rate_limited)

module _ (redis : SortedSets) where
  open redis use {Store}

  unfoldable pub guardrail_entrada :
      RateLimitSettings → Str → ℤ → ℤ → Call → Store → GuardrailResult × Store
  unfolding limited_input
  guardrail_entrada settings user_input user_id empresa_id c s =
      if is_blank user_input
      then (blocked (codes "Mensagem vazia.") none, s)
      else if ltb 4096 (length user_input)
      then (blocked (codes "Mensagem muito longa (máx 4096 chars).") none, s)
      else if injected user_input
      then (
        blocked (codes "Conteúdo bloqueado: possível tentativa de manipulação do sistema.") none,
        s,
      )
      else let (r, s') = check_rate_limit redis settings empresa_id user_id c s in
        (limited_input settings user_input r, s')
