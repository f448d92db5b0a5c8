-- ===== src/Agents/Tools.antt =====
-- app/agents/runtime.py: the loop of tool calls and the gathering of concurrent calls. The model is
-- an argument: it answers a conversation, with the tools bound or without. A call of it that raises
-- ends the loop with its exception, which is not modelled.
pub mod Loop
use mottainai_ia.Base.{
  ℕ, zero, suc, ◌+◌, Bool, true, false, List, [], ◌∷◌, ◌++◌, Option, none, some, if◌then◌else◌,
  find,
}
use mottainai_ia.Text.Case.{Str, codes}
use mottainai_ia.Text.Search.{str_eq}

pub record ToolCall : Type 0 where
  pub name : Str
  pub arguments : Str
  pub id : Str

pub record Usage : Type 0 where
  pub input_tokens : ℕ
  pub output_tokens : ℕ
  pub total_tokens : ℕ

-- `AIMessage`; missing `usage_metadata` counts as zeros.
pub record AiMessage : Type 0 where
  pub content : Str
  pub tool_calls : List ToolCall
  pub usage : Usage

-- A message of the conversation: what was there before, the model's or a tool's.
pub data Entry : Type 0 where
  given : Str → Entry
  model : AiMessage → Entry
  tool : Str → Str → Entry

-- A tool by its name; `tool.ainvoke` gives a content or the text of what it raised.
pub record Tool : Type 0 where
  pub tool_name : Str
  pub invoke : Str → Option Str × Str

abbrev pub no_usage : Usage
no_usage = record { input_tokens = 0; output_tokens = 0; total_tokens = 0 }

abbrev pub add_usage : Usage → Usage → Usage
add_usage a b = record {
  input_tokens = a.input_tokens + b.input_tokens;
  output_tokens = a.output_tokens + b.output_tokens;
  total_tokens = a.total_tokens + b.total_tokens;
}

-- `record_usage`: the response with all that was used so far.
abbrev pub with_usage : Usage → AiMessage → AiMessage
with_usage total response = record response { usage = total }

-- `{tool.name: tool}.get(name)`: the last tool of a name.
unfoldable pub tool_by_name : Str → List Tool → Option Tool
tool_by_name name [] = none
tool_by_name name (t ∷ ts) = elim (tool_by_name name ts) [
  | some later ↦ some later
  | none ↦ if str_eq t.tool_name name then some t else none
]

unfoldable pub outcome_text : Str → Option Str × Str → Str
outcome_text name (some content, error) = content
outcome_text name (none, error) = codes "Erro ao executar " ++ (name ++ (codes ": " ++ error))

unfoldable pub content_of : ToolCall → Option Tool → Str
unfolding outcome_text
content_of call none = codes "Ferramenta desconhecida: " ++ call.name
content_of call (some t) = outcome_text call.name (t.invoke call.arguments)

-- The `ToolMessage`s of one round.
unfoldable pub tool_messages : List Tool → List ToolCall → List Entry
unfolding content_of tool_by_name
tool_messages tools [] = []
tool_messages tools (call ∷ calls) =
    tool (content_of call (tool_by_name call.name tools)) call.id ∷ tool_messages tools calls

-- What the loop does: its answer, the calls of the model, and whether the answer came from the
-- model without tools.
pub record Run : Type 0 where
  pub answer : AiMessage
  pub bound_calls : ℕ
  pub forced : Bool
  pub conversation : List Entry

abbrev pub is_direct : AiMessage → Bool
is_direct response = elim response.tool_calls [ [] ↦ true | call ∷ calls ↦ false ]

module _ (tools : List Tool) (bound plain : List Entry → AiMessage) where
  abbrev pub counted : Run → Run
  counted r = record r { bound_calls = suc r.bound_calls }

  -- `for _ in range(max_iterations)`, with the total so far.
  unfoldable pub loop : ℕ → Usage → List Entry → Run
  unfolding tool_messages
  loop zero total conversation =
      let response = plain conversation in
      record {
        answer = with_usage (add_usage total response.usage) response;
        bound_calls = 0;
        forced = true;
        conversation = conversation;
      }
  loop (suc n) total conversation =
      let response = bound conversation in
      let total' = add_usage total response.usage in
      let rest =
        loop n total'
          (conversation ++ (model response ∷ tool_messages tools response.tool_calls)) in
      if is_direct response
      then record {
        answer = with_usage total' response;
        bound_calls = 1;
        forced = false;
        conversation = conversation;
      }
      else counted rest

  unfoldable pub run_agent_with_tools : ℕ → List Entry → Run
  unfolding loop
  run_agent_with_tools max_iterations messages = loop max_iterations no_usage messages
