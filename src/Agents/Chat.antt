-- ===== src/Agents/Chat.antt =====
-- interfaces/api/main.py: `POST /chat` around a run of the graph. Of the records in the background
-- only their status is kept.
pub mod Statuses
use mottainai_ia.Base.{
  ℕ, Bool, true, false, not, ◌&&◌, List, [], ◌∷◌, Option, none, some, if◌then◌else◌,
}
use mottainai_ia.Base.Int.{ℤ}
use mottainai_ia.Base.Floats.{Floats}
use mottainai_ia.Text.Case.{Str, codes}
use mottainai_ia.Text.Search.{str_eq}
use mottainai_ia.Cache.RateLimit.{RateLimitSettings}
use mottainai_ia.Guardrails.Entrada.{rate_limited}
use mottainai_ia.Memory.Documents.{Source}
use mottainai_ia.Memory.LongTerm.{no_memory}
use mottainai_ia.Agents.State.{State, Score, float, truthy}
use mottainai_ia.Agents.Graph.{
  Result, done, failed, Failure, not_owner, session_closed, session_expired, no_document,
  agent_raised, no_such_node, type_error, text_or,
}

-- `AuthContext`, without the token's own fields.
pub record Principal : Type 0 where
  pub usuario_id : ℤ
  pub empresa_id : ℤ
  pub role : Str
  pub store_id : Option ℤ

pub record HttpError : Type 0 where
  pub status_code : ℕ
  pub detail : Str
  pub retry_after : Option ℕ

-- What an agent that raised has raised: an error of the model's provider (`APIConnectionError`,
-- `APIError`, `OpenAIError`), a `RedisError`, or another exception.
pub data Exception : Type 0 where
  provider_error redis_error other_error : Exception

module _ (fl : Floats) where
  open fl use {F, zero_point}

  pub record ChatResponse : Type 0 where
    pub session_id : Str
    pub response : Str
    pub agent : Str
    pub judge_approved : Bool
    pub judge_score : Score F
    pub sources : List Source

  -- A response, an `HTTPException`, or an exception that the route does not catch.
  pub data ChatResult : Type 0 where
    responded : ChatResponse → ChatResult
    refused : HttpError → ChatResult
    raised : Failure → ChatResult

  -- The result, and the statuses that the execution log and the metrics are given, if any.
  pub record ChatOutcome : Type 0 where
    pub result : ChatResult
    pub execution_log : Option Str
    pub metrics : Option Str

  unfoldable pub initial_state : Principal → Str → Str → State F
  initial_state principal session_id message = record {
    session_id = session_id;
    empresa_id = principal.empresa_id;
    usuario_id = principal.usuario_id;
    store_id = if str_eq principal.role (codes "DONO") then none else principal.store_id;
    user_role = principal.role;
    user_input = message;
    sanitized_input = [];
    history = [];
    memory = no_memory;
    conversation_id = none;
    selected_agent = [];
    grounding_context = none;
    agent_response = [];
    judge_approved = false;
    judge_score = float zero_point;
    final_response = [];
    error = none;
    error_code = none;
    sources = [];
    input_tokens = 0;
    output_tokens = 0;
    tool_runs = [];
    routing_log = none;
  }

  abbrev pub refusal_outcome : ℕ → Str → ChatOutcome
  refusal_outcome code detail = record {
    result = refused (record { status_code = code; detail = detail; retry_after = none });
    execution_log = none;
    metrics = none;
  }

  -- `result.get("error_code") == "rate_limited"`
  unfoldable pub is_limited : Option Str → Bool
  is_limited none = false
  is_limited (some code) = str_eq code rate_limited

  unfoldable pub error_outcome : RateLimitSettings → State F → ChatOutcome
  unfolding is_limited text_or
  error_outcome settings st = record {
    result = refused (record {
      status_code = if is_limited st.error_code then 429 else 400;
      detail = text_or st.error [];
      retry_after =
          if is_limited st.error_code then some settings.rate_limit_window_seconds else none;
    });
    execution_log = some (codes "error");
    metrics = some (codes "error");
  }

  unfoldable pub response_outcome : State F → ChatOutcome
  response_outcome st = record {
    result = responded (record {
      session_id = st.session_id;
      response = st.final_response;
      agent = st.selected_agent;
      judge_approved = st.judge_approved;
      judge_score = st.judge_score;
      sources = st.sources;
    });
    execution_log = some (codes "completed");
    metrics = some (if truthy st.error then codes "error" else codes "completed");
  }

  abbrev pub propagated : Failure → ChatOutcome
  propagated f = record { result = raised f; execution_log = none; metrics = none }

  abbrev pub unavailable_model : Str
  unavailable_model =
      codes
        "O modelo de IA configurado está indisponível. Verifique a disponibilidade do provedor ou do modelo e tente novamente."

  abbrev pub unavailable_limits : Str
  unavailable_limits = codes "Controle de tráfego temporariamente indisponível."

  -- The `except` clauses around the run.
  unfoldable pub chat_failure : Exception → Failure → ChatOutcome
  chat_failure kind not_owner =
      refusal_outcome 403 (codes "A sessão não pertence ao usuário ou empresa informados.")
  chat_failure kind session_closed =
      refusal_outcome 409 (codes "A sessão foi encerrada. Inicie uma nova conversa.")
  chat_failure kind session_expired =
      refusal_outcome 409 (codes "A sessão expirou por inatividade. Inicie uma nova conversa.")
  chat_failure kind no_document = propagated no_document
  chat_failure kind no_such_node = propagated no_such_node
  chat_failure kind type_error = propagated type_error
  chat_failure provider_error agent_raised = record (refusal_outcome 503 unavailable_model) {
    execution_log = some (codes "error");
    metrics = some (codes "error");
  }
  chat_failure redis_error agent_raised = refusal_outcome 503 unavailable_limits
  chat_failure other_error agent_raised = propagated agent_raised

  -- What the route makes of a run; `none` is a run that `chat_timeout_seconds` cut off.
  unfoldable pub chat_outcome :
      Exception → RateLimitSettings → Option (Result (State F)) → ChatOutcome
  unfolding error_outcome response_outcome chat_failure
  chat_outcome kind settings none =
      refusal_outcome 504 (codes "O agente demorou demais para responder. Tente novamente.")
  chat_outcome kind settings (some (failed f)) = chat_failure kind f
  chat_outcome kind settings (some (done st)) =
      if truthy st.error && not (truthy (some st.final_response))
      then error_outcome settings st
      else response_outcome st
