-- ===== src/Tests/Runs.antt =====
-- Whole runs of the graph, with the replies and the agents given by concrete functions.
use mottainai_ia.Base.{ℕ, ◌≡◌, ◌⊎◌, refl, List, [], Option, none, some, true, Any, if◌then◌else◌}
use mottainai_ia.Base.Int.{pos}
use mottainai_ia.Text.Case.{Str, codes, upper, strip, lower}
use mottainai_ia.Text.Search.{str_eq, str_mem, starts_with, str_contains}
use mottainai_ia.Agents.State.{State}
use mottainai_ia.Agents.Intents.{fallback_intents, match_intent, candidate, better}
use mottainai_ia.Agents.Judge.{
  Json, object, boolean, integer, end, field, Reply, node_agente_juiz, run_judge_evaluation, parsed,
  validate, checked, approves, as_bool, as_score, in_unit, get_field, payload, settle, counted,
}
use mottainai_ia.Agents.Graph.{
  Result, done, failed, Answer, Databases, Clock, Request, run_graph, unavailable_output,
  node_load_context, answered,
}
use mottainai_ia.Agents.Graph.Safety.{run_graph-unapproved, run_graph-approved, run_graph-allowed}
use mottainai_ia.Agents.Graph.Released.{refusals, Filtered}
use mottainai_ia.Agents.Judge.Verdict.{IsVouched}
use mottainai_ia.Agents.Supervisor.Routing.{allowed_agents}
use mottainai_ia.Agents.Chat.{Principal, initial_state}
use mottainai_ia.Cache.SortedSets.{Entry}
use mottainai_ia.Guardrails.Entrada.{guardrail_entrada, is_blank, injected, sanitize}
use mottainai_ia.Text.Regex.{found, sub, same_letter, is_digit}
use mottainai_ia.Cache.RateLimit.{check_rate_limit}
use mottainai_ia.Cache.Keyspace.{rate_limit}
use mottainai_ia.Agents.Supervisor.{
  role_to_intent_agents, node_supervisor_route, role_to_default_agent,
}
use mottainai_ia.Guardrails.Saida.{guardrail_saida, is_local}
use mottainai_ia.Memory.Sessions.{get_or_create_conversation, expiration_cutoff}
use mottainai_ia.Text.Decimal.{str_ℤ}
use mottainai_ia.Tests.Instances.{tenths, sets, sorted_cursor}

abbrev verdict : Json ℕ
verdict = object (
    field (codes "approved") (boolean true) (
      field (codes "scope_ok") (boolean true) (
        field (codes "grounding_ok") (boolean true)
          (field (codes "confidence_score") (integer (pos 1)) end))))

abbrev pub parse : Str → Option (Json ℕ)
parse s = if str_eq s (codes "good") then some verdict else none

abbrev pub good : Reply
good = record { content = codes "good"; input_tokens = 10; output_tokens = 5 }

abbrev pub bad : Reply
bad = record { content = codes "not JSON"; input_tokens = 7; output_tokens = 3 }

abbrev answer : Answer
answer = record {
  agent_response = codes "Oi! Posso ajudar?";
  grounding = none;
  sources = [];
  input_tokens = 20;
  output_tokens = 6;
  tool_runs = [];
}

abbrev greets : Str → State ℕ → Option Answer
greets name state = some answer

abbrev clock : Clock
clock = record {
  minute = 60;
  session_timeout_minutes = 30;
  new_id = 1;
  opened_at = 5000;
  checked_at = 5000;
  asked_at = 5001;
  answered_at = 5002;
  noted_at = 5003;
}

abbrev request : Option Reply → Request tenths sets sorted_cursor parse greets
request reply = record {
  settings = record { rate_limit_window_seconds = 60; rate_limit_rpm = 20 };
  call = record { now_ms = 70000; token = codes "a" };
  clock = clock;
  intents = fallback_intents tenths;
  reply = reply;
  second = none;
}

abbrev pub ana : Principal
ana = record { usuario_id = pos 9; empresa_id = pos 4; role = codes "cliente"; store_id = none }

abbrev pub start : Str → State ℕ
start message = initial_state tenths ana (codes "s1") message

abbrev pub no_entries : ℕ → Str → List Entry
no_entries t k = []

abbrev no_data : Databases
no_data = record { chats = record { conversations = []; messages = [] }; memories = [] }

abbrev ran : Option Reply → Str → Result (State ℕ)
ran reply message =
    (run_graph tenths sets sorted_cursor parse greets (request reply) (start message) no_entries
      no_data).0

abbrev state_of : Result (State ℕ) → State ℕ
state_of (done st) = st
state_of (failed f) = start []

abbrev pub greeting : Str
greeting = codes "oi"

abbrev approved : State ℕ
approved = state_of (ran (some good) greeting)

runs : Unit {0}
unfolding run_graph guardrail_entrada is_blank initial_state strip injected sanitize found sub
    same_letter is_digit check_rate_limit str_eq rate_limit role_to_intent_agents
    node_supervisor_route role_to_default_agent upper lower str_mem node_agente_juiz
    run_judge_evaluation parsed validate checked approves as_bool as_score in_unit get_field payload
    starts_with settle guardrail_saida match_intent candidate str_contains
    get_or_create_conversation expiration_cutoff better is_local str_ℤ node_load_context answered
    counted
runs = tt

ends_approved : ran (some good) greeting ≡ done approved
unfolding runs
ends_approved = refl

run_graph-approved_example :
    (IsVouched tenths parse (some good) ⊎ IsVouched tenths parse none)
    × ((approved.final_response ≡ unavailable_output)
        ⊎ (routed : State ℕ) × (a : Answer) × (greets approved.selected_agent routed ≡ some a)
          × Filtered a.agent_response approved.final_response)
unfolding runs
run_graph-approved_example =
    run_graph-approved tenths parse sets sorted_cursor greets (request (some good)) (start greeting)
      approved no_entries no_data ends_approved refl refl

run_graph-allowed_example :
    str_mem approved.selected_agent (allowed_agents (upper (codes "cliente"))) ≡ true
unfolding runs
run_graph-allowed_example =
    run_graph-allowed tenths parse sets sorted_cursor greets (request (some good)) (start greeting)
      approved no_entries no_data ends_approved refl

abbrev unapproved : State ℕ
unapproved = state_of (ran none greeting)

ends_unapproved : ran none greeting ≡ done unapproved
unfolding runs
ends_unapproved = refl

run_graph-unapproved_example : Any (λ m. unapproved.final_response ≡ m) (refusals tenths parse)
unfolding runs
run_graph-unapproved_example =
    run_graph-unapproved tenths parse sets sorted_cursor greets (request none) (start greeting)
      unapproved no_entries no_data ends_unapproved refl refl

abbrev stopped : State ℕ
stopped = state_of (ran none (codes " "))
