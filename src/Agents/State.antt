-- ===== src/Agents/State.antt =====
-- `MottainaiState` of app/agents/runtime.py: what the nodes of the graph hand on. The
-- timings of the nodes are left out.
use mottainai_ia.Base.{ℕ, Bool, List, Option, none, some, [], ◌∷◌, true, false}
use mottainai_ia.Base.Int.{ℤ}
use mottainai_ia.Text.Case.{Str}
use mottainai_ia.Memory.Documents.{Source, Turn, Memory}

-- A score as JSON gives it: an integer or a float.
pub data Score (F : Type 0) : Type 0 where
  whole : ℤ → Score F
  float : F → Score F

pub record ToolRun : Type 0 where
  pub tool : Str
  pub output : Option Str
  pub succeeded : Bool

pub record RoutingLog (F : Type 0) : Type 0 where
  pub selected_intent : Str
  pub log_agent : Str
  pub selected_skill : Option Str
  pub confidence : Option F

pub record State (F : Type 0) : Type 0 where
  pub session_id : Str
  pub empresa_id : ℤ
  pub usuario_id : ℤ
  pub store_id : Option ℤ
  pub user_role : Str
  pub user_input : Str
  pub sanitized_input : Str
  pub history : List Turn
  pub memory : Memory
  pub conversation_id : Option ℕ
  pub selected_agent : Str
  pub grounding_context : Option Str
  pub agent_response : Str
  pub judge_approved : Bool
  pub judge_score : Score F
  pub final_response : Str
  pub error : Option Str
  pub error_code : Option Str
  pub sources : List Source
  pub input_tokens : ℕ
  pub output_tokens : ℕ
  pub tool_runs : List ToolRun
  pub routing_log : Option (RoutingLog F)

-- `if state.get("error")`: missing, null and the empty text are false.
abbrev pub truthy : Option Str → Bool
truthy none = false
truthy (some []) = false
truthy (some (c ∷ s)) = true
