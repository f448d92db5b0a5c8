-- ===== src/Integrations/Dispatch/Routes.antt =====
-- `POST /a2a` and `POST /mcp` of interfaces/api/main.py.
use mottainai_ia.Base.{true, false, ◌∷◌, [], if◌then◌else◌}
use mottainai_ia.Base.Int.{negsuc, eqb_ℤ}
use mottainai_ia.Text.Case.{Str, codes}
use mottainai_ia.Text.Search.{str_eq}
use mottainai_ia.Agents.Judge.{Fields}
use mottainai_ia.Integrations.{Outcome, returned, raised, tool_error, tool_result}
use mottainai_ia.Integrations.Dispatch.{
  Deployment, Arrival, McpAnswer, mcp_error, initialized, tools_listed, content, McpReply, A2aReply,
  a2a_error, completed, HttpAnswer, ok, http_error, server_error, Serving, dispatch_mcp,
  dispatch_a2a,
}

-- The error of a result of a2a, `(result.get("error") or {}).get("code")`: a text has no `get`.
pub data ErrorCode : Type 0 where
  code : Str → ErrorCode
  no_code attribute_error : ErrorCode

unfoldable pub error_code : {F : Type 0} → A2aReply F → ErrorCode
error_code (a2a_error c message) = code c
error_code (completed action (tool_error [])) = no_code
error_code (completed action (tool_error (ch ∷ text))) = attribute_error
error_code (completed action (tool_result r)) = no_code

unfoldable pub by_code : {F : Type 0} → A2aReply F → ErrorCode → HttpAnswer (A2aReply F)
unfolding str_eq
by_code reply attribute_error = server_error
by_code reply no_code = ok reply
by_code reply (code c) =
    if str_eq c (codes "unauthorized")
    then http_error 401 false
    else if str_eq c (codes "rate_limited")
    then http_error 429 true
    else if str_eq c (codes "unavailable")
    then http_error 503 false
    else ok reply

unfoldable pub a2a_answer : {F : Type 0} → Outcome (A2aReply F) → HttpAnswer (A2aReply F)
unfolding error_code by_code
a2a_answer raised = server_error
a2a_answer (returned reply) = by_code reply (error_code reply)

unfoldable pub by_answer : {F : Type 0} → McpReply F → McpAnswer → HttpAnswer (McpReply F)
by_answer reply (mcp_error n message) =
    if eqb_ℤ n (negsuc 32028)
    then http_error 429 true
    else if eqb_ℤ n (negsuc 32002)
    then http_error 503 false
    else ok reply
by_answer reply initialized = ok reply
by_answer reply tools_listed = ok reply
by_answer reply (content text) = ok reply

unfoldable pub mcp_answer : {F : Type 0} → Outcome (McpReply F) → HttpAnswer (McpReply F)
unfolding by_answer
mcp_answer raised = server_error
mcp_answer (returned reply) = by_answer reply reply.answer

module _ {F : Type 0} (d : Deployment F) where
  open d use {float_is, str_of, fetch, redis, settings, rate_limit_integration_rpm, mcp, a2a}

  abbrev Served : Type 0
  Served = Serving d

  unfoldable pub a2a_message : Arrival → Fields F → Served → HttpAnswer (A2aReply F) × Served
  unfolding a2a_answer dispatch_a2a
  a2a_message a payload s = let (reply, s') = dispatch_a2a d a payload s in (a2a_answer reply, s')

  unfoldable pub mcp_rpc : Arrival → Fields F → Served → HttpAnswer (McpReply F) × Served
  unfolding mcp_answer dispatch_mcp
  mcp_rpc a payload s = let (reply, s') = dispatch_mcp d a payload s in (mcp_answer reply, s')
