-- ===== src/Tests/Agents.antt =====
-- The guardrails, the judge, the routing and the intents, each alone.
use mottainai_ia.Base.{
  ℕ, ◌≤◌, ◌<◌, ◌≡◌, ◌⊎◌, ◌↔◌, refl, [], ◌∷◌, none, some, true, false, length, Any, arith,
}
use mottainai_ia.Base.Int.{pos}
use mottainai_ia.Text.Case.{Str, codes, upper, strip, lower}
use mottainai_ia.Text.Search.{str_eq, str_mem, starts_with, str_contains}
use mottainai_ia.Agents.State.{State}
use mottainai_ia.Agents.Intents.{match_intent, candidate, better, Intent, Matched}
use mottainai_ia.Agents.Judge.{
  node_agente_juiz, run_judge_evaluation, parsed, validate, checked, approves, as_bool, as_score,
  in_unit, get_field, payload, settle, counted,
}
use mottainai_ia.Agents.Graph.{run_graph, node_load_context, answered}
use mottainai_ia.Agents.Judge.Verdict.{IsVouched, node_agente_juiz-approved_iff}
use mottainai_ia.Agents.Chat.{Principal, initial_state}
use mottainai_ia.Guardrails.Entrada.{guardrail_entrada, is_blank, injected, sanitize}
use mottainai_ia.Text.Regex.{found, sub, same_letter, is_digit}
use mottainai_ia.Cache.RateLimit.{check_rate_limit, RateLimitSettings, Call}
use mottainai_ia.Cache.Keyspace.{rate_limit}
use mottainai_ia.Agents.Supervisor.{
  role_to_intent_agents, node_supervisor_route, role_to_default_agent,
}
use mottainai_ia.Guardrails.Saida.{
  guardrail_saida, is_local, internal_leak_patterns, max_response_len, leak_output, too_long_output,
}
use mottainai_ia.Memory.Sessions.{get_or_create_conversation, expiration_cutoff}
use mottainai_ia.Text.Decimal.{str_ℤ}
use mottainai_ia.Guardrails.Entrada.Admitted.{admissible, guardrail_entrada-allowed_iff}
use mottainai_ia.Guardrails.Saida.Released.{without_pii, guardrail_saida_cases}
use mottainai_ia.Agents.Intents.Match.{Eligible, match_intent-best}
use mottainai_ia.Tests.Instances.{tenths-IsOrdered, tenths, sets}
use mottainai_ia.Tests.Runs.{parse, good, bad, start, no_entries, greeting}

runs : Unit {0}
unfolding run_graph guardrail_entrada is_blank initial_state strip injected sanitize found sub
    same_letter is_digit check_rate_limit str_eq rate_limit role_to_intent_agents
    node_supervisor_route role_to_default_agent upper lower str_mem node_agente_juiz
    run_judge_evaluation parsed validate checked approves as_bool as_score in_unit get_field payload
    starts_with settle guardrail_saida match_intent candidate str_contains
    get_or_create_conversation expiration_cutoff better is_local str_ℤ node_load_context answered
    counted
runs = tt

-- The guardrails alone.
abbrev rpm : RateLimitSettings
rpm = record { rate_limit_window_seconds = 60; rate_limit_rpm = 20 }

abbrev first_call : Call
first_call = record { now_ms = 70000; token = codes "a" }

admits : admissible greeting ≡ true
unfolding runs
admits = refl

guardrail_entrada-allowed_iff_example :
    ((guardrail_entrada sets rpm greeting (pos 9) (pos 4) first_call no_entries).0 ≡ record {
      allowed = true;
      reason = none;
      sanitized_input = some (sanitize greeting);
      code = none;
    })
    ↔ ((is_blank greeting ≡ false)
        × (length greeting ≤ 4096)
        × (injected greeting ≡ false)
        × ((check_rate_limit sets rpm (pos 4) (pos 9) first_call no_entries).0.allowed ≡ true))
guardrail_entrada-allowed_iff_example =
    guardrail_entrada-allowed_iff sets rpm greeting (pos 9) (pos 4) first_call no_entries

abbrev leaking : Str
leaking = codes "a senha"

guardrail_saida_cases_example :
    ((guardrail_saida leaking).safe ≡ true)
      × ((guardrail_saida leaking).output ≡ without_pii leaking)
      × (found internal_leak_patterns (guardrail_saida leaking).output ≡ false)
      × (length (guardrail_saida leaking).output ≤ max_response_len)
    ⊎ ((guardrail_saida leaking).safe ≡ false)
      × (((guardrail_saida leaking).output ≡ leak_output)
            × (found internal_leak_patterns (without_pii leaking) ≡ true)
          ⊎ ((guardrail_saida leaking).output ≡ too_long_output)
            × (max_response_len < length (without_pii leaking)))
guardrail_saida_cases_example = guardrail_saida_cases leaking

-- The judge alone.
abbrev judged_well : State ℕ
judged_well = node_agente_juiz tenths parse (some bad) (some good) (start greeting)

node_agente_juiz-approved_iff_example :
    (judged_well.judge_approved ≡ true)
    ↔ (IsVouched tenths parse (some bad) ⊎ IsVouched tenths parse (some good))
node_agente_juiz-approved_iff_example =
    node_agente_juiz-approved_iff tenths parse (some bad) (some good) (start greeting)

-- The routing alone.
abbrev owner : Principal
owner = record { usuario_id = pos 1; empresa_id = pos 4; role = codes "dono"; store_id = none }

abbrev asks : Principal → Str → State ℕ
asks principal message = record (initial_state tenths principal (codes "s1") message) {
  sanitized_input = message;
}

-- Half of the examples match.
abbrev greets_intent : Intent ℕ
greets_intent = record {
  key = codes "greeting";
  agent = some (codes "faq");
  examples = some (codes "oi" ∷ codes "bom dia" ∷ []);
  confidence_threshold = some (some 3);
}

raises_on_null :
    match_intent tenths greeting
      (codes "faq" ∷ [])
      (record greets_intent { confidence_threshold = some none } ∷ [])
    ≡ none
unfolding runs
raises_on_null = refl

abbrev found_intent : Matched ℕ
found_intent = record { key = codes "greeting"; agent = codes "faq"; confidence = 5 }

greets-Eligible : Eligible tenths greeting (codes "faq" ∷ []) greets_intent found_intent
unfolding runs
greets-Eligible = record {
  its_key = refl;
  its_agent = refl;
  may_route = refl;
  some_match = λ e. omega (arith, e);
  its_confidence = refl;
  clears = (3, refl, refl);
}

match_intent-best_example :
    Any (λ j. Eligible tenths greeting (codes "faq" ∷ []) j found_intent) (greets_intent ∷ [])
    × (tenths.lt 5 5 ≡ false)
unfolding runs
match_intent-best_example =
    match_intent-best tenths greeting (codes "faq" ∷ []) tenths-IsOrdered (greets_intent ∷ [])
      found_intent 0 greets_intent found_intent refl refl greets-Eligible
