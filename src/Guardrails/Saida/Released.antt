-- ===== src/Guardrails/Saida/Released.antt =====
-- What the output guardrail lets through.
use mottainai_ia.Base.{◌≤◌, ◌<◌, ◌≡◌, ◌⊎◌, true, false, arith, length}
use mottainai_ia.Text.Case.{Str, codes}
use mottainai_ia.Text.Regex.{found, sub}
use mottainai_ia.Guardrails.Saida.{
  pii_patterns, internal_leak_patterns, max_response_len, leak_output, too_long_output,
  guardrail_saida,
}

-- The text that steps 3 and 4 look at.
abbrev pub without_pii : Str → Str
without_pii response = elim (found pii_patterns response) [
  | true ↦ sub pii_patterns (codes "[INFORMAÇÃO PROTEGIDA]") response
  | false ↦ response
]

-- A response that is released holds no internal word and at most 8192 characters, and is the
-- agent's text with the personal data replaced; any other result is one of the two fixed texts.
pub guardrail_saida_cases :
    (response : Str)
    → ((guardrail_saida response).safe ≡ true)
        × ((guardrail_saida response).output ≡ without_pii response)
        × (found internal_leak_patterns (guardrail_saida response).output ≡ false)
        × (length (guardrail_saida response).output ≤ max_response_len)
      ⊎ ((guardrail_saida response).safe ≡ false)
        × (((guardrail_saida response).output ≡ leak_output)
              × (found internal_leak_patterns (without_pii response) ≡ true)
            ⊎ ((guardrail_saida response).output ≡ too_long_output)
              × (max_response_len < length (without_pii response)))
unfolding guardrail_saida
guardrail_saida_cases response = ground arith
