-- ===== src/Tests/Security.antt =====
-- Tokens and the loop of tool calls.
use mottainai_ia.Base.{List, [], ◌∷◌, none, some}
use mottainai_ia.Base.Int.{pos}
use mottainai_ia.Text.Case.{codes}
use mottainai_ia.Security.Claims.{Claims, string_claim, int_claim}
use mottainai_ia.Security.Tokens.{AuthContext, Directory}
use mottainai_ia.Agents.Tools.{AiMessage, Entry, given, no_usage, run_agent_with_tools}
use mottainai_ia.Agents.Tools.Loop.{Completed, run_agent_with_tools-Completed}

abbrev nobody : Directory
nobody = record { customer = λ uid. none; staff = λ uid. none; on_deny_list = λ jti. none }

abbrev manager : Claims
manager = record {
  role = string_claim (codes "gerente");
  sub = codes "17";
  empresa_id = int_claim (pos 4);
  exp = int_claim (pos 99);
  use_claim = none;
  jti = none;
  operational_identity = none;
  usuario_id = none;
  store_id = some (int_claim (pos 2));
}

abbrev manager_context : AuthContext
manager_context = record {
  usuario_id = pos 17;
  empresa_id = pos 4;
  role = codes "GERENTE";
  jti = none;
  exp = some (pos 99);
  operational_identity = none;
  store_id = some (pos 2);
}

-- A model that asks for one unknown tool, then answers.
abbrev asks : AiMessage
asks = record {
  content = [];
  tool_calls = record { name = codes "stock"; arguments = []; id = codes "c1" } ∷ [];
  usage = record { input_tokens = 5; output_tokens = 1; total_tokens = 6 };
}

abbrev says : AiMessage
says = record { content = codes "ok"; tool_calls = []; usage = no_usage }

abbrev answers : List Entry → AiMessage
answers [] = says
answers (e ∷ []) = asks
answers (e ∷ f ∷ es) = says

abbrev question : List Entry
question = given (codes "?") ∷ []

run_agent_with_tools-Completed_example :
    Completed [] answers answers question 3 0 (run_agent_with_tools [] answers answers 3 question)
run_agent_with_tools-Completed_example =
    run_agent_with_tools-Completed [] answers answers 3 question
