-- ===== src/Integrations/Dispatch.antt =====
-- The two entry points of app/integrations/mcp_a2a.py and their routes in interfaces/api/main.py. The
-- state is the budget of requests in Redis and the session of the data layer.
pub mod Routes
pub mod Scoped
pub mod Answers
use mottainai_ia.Base.{ℕ, Bool, true, false, ◌||◌, ◌==◌, [], ◌∷◌, Option, none, some, if◌then◌else◌}
use mottainai_ia.Base.Int.{ℤ, pos, negsuc, leb_ℤ}
use mottainai_ia.Text.Case.{Str, codes}
use mottainai_ia.Text.Search.{str_eq}
use mottainai_ia.Security.Tokens.{OperationalIdentity}
use mottainai_ia.Agents.Judge.{
  Json, null, boolean, integer, number, string, array, object, Fields, get_field,
}
use mottainai_ia.Cache.SortedSets.{SortedSets}
use mottainai_ia.Cache.RateLimit.{
  RateLimitResult, RateLimitSettings, Call, check_endpoint_rate_limit,
}
use mottainai_ia.Integrations.{
  Outcome, returned, raised, Integration, Lookup, Fetched, ToolResult, tool_error, tool_result,
  Session, authorized, Scoping, bound, refused, company_scoped_arguments, or_empty,
}
use mottainai_ia.Integrations.Tools.{is_text, authenticated_integration_tool}

-- `_integration_rate_error`: over the budget, or no answer from Redis.
pub data RateError : Type 0 where
  rate_limited unavailable : RateError

-- What a request finds: a call of the limit script, and whether Redis answers.
pub record Arrival : Type 0 where
  pub call : Call
  pub redis_answers : Bool
  pub authorization : Option Str

-- The gate that both entry points pass: the token, then the budget. `none` is an exception.
pub data Gate : Type 0 where
  open_gate unauthorized : Gate
  over : RateError → Gate

pub data McpAnswer : Type 0 where
  -- The code of a JSON-RPC error and its message.
  mcp_error : ℤ → Str → McpAnswer
  initialized tools_listed : McpAnswer
  content : Str → McpAnswer

-- The identifier of the request, and the answer.
pub record McpReply (F : Type 0) : Type 0 where
  pub id : Option (Json F)
  pub answer : McpAnswer

pub data A2aReply (F : Type 0) : Type 0 where
  a2a_error : Str → Str → A2aReply F
  -- The action, and the result of its tool.
  completed : Option (Json F) → ToolResult F → A2aReply F

-- The answer of a route: a body with 200, an HTTPException with its status and whether it carries
-- Retry-After, or an exception that the framework answers by 500.
pub data HttpAnswer (A : Type 0) : Type 0 where
  ok : A → HttpAnswer A
  http_error : ℕ → Bool → HttpAnswer A
  server_error : HttpAnswer A

abbrev pub completed_by :
    {F : Type 0} → Option (Json F) → Outcome (ToolResult F) → Outcome (A2aReply F)
completed_by action raised = raised
completed_by action (returned r) = returned (completed action r)

-- What the two integrations run with.
pub record Deployment (F : Type 0) : Type 1 where
  pub float_is : F → ℤ → Bool
  pub str_of : Option (Json F) → Str
  pub fetch : Option OperationalIdentity → ℤ → Lookup → Fetched F
  pub redis : SortedSets
  pub settings : RateLimitSettings
  pub rate_limit_integration_rpm : ℕ
  pub mcp : Integration
  pub a2a : Integration

module _ {F : Type 0} (d : Deployment F) where
  open d use {float_is, str_of, fetch, redis, settings, rate_limit_integration_rpm, mcp, a2a}
  open redis use {Store}

  abbrev pub max_one : ℤ → ℤ
  max_one n = if leb_ℤ (pos 1) n then n else pos 1

  abbrev pub judged : Option RateLimitResult × Store → Option RateError × Store
  judged (none, s) = (some unavailable, s)
  judged (some r, s) = (if r.allowed then none else some rate_limited, s)

  unfoldable pub integration_rate_error : Str → ℤ → Arrival → Store → Option RateError × Store
  unfolding check_endpoint_rate_limit
  integration_rate_error scope empresa_id a s =
      if rate_limit_integration_rpm == 0
      then (none, s)
      else if a.redis_answers
      then judged (
          check_endpoint_rate_limit redis settings (max_one empresa_id) (pos 1) scope
            rate_limit_integration_rpm a.call s)
      else (some unavailable, s)

  abbrev pub Serving : Type 0
  Serving = Store × Session

  abbrev gate_of : Option RateError → Gate
  gate_of none = open_gate
  gate_of (some e) = over e

  abbrev pub gated : Integration → Str → Arrival → Option Bool → Store → Option Gate × Store
  gated c scope a none s = (none, s)
  gated c scope a (some false) s = (some unauthorized, s)
  gated c scope a (some true) s =
      let (e, s') = integration_rate_error scope c.empresa_id a s in (some (gate_of e), s')

  unfoldable pub gate : Integration → Str → Arrival → Store → Option Gate × Store
  unfolding authorized integration_rate_error
  gate c scope a s = gated c scope a (authorized a.authorization c.shared_token) s

  abbrev pub tool_answer : Outcome (ToolResult F) → Outcome McpAnswer
  tool_answer raised = raised
  tool_answer (returned (tool_error [])) = raised
  tool_answer (returned (tool_error (c ∷ text))) = returned (mcp_error (negsuc 32601) (c ∷ text))
  tool_answer (returned (tool_result r)) = returned (content (str_of (some r)))

  abbrev pub call_tool : Option (Json F) → Scoping F → Session → Outcome McpAnswer × Session
  call_tool name (refused text) s = (returned (mcp_error (negsuc 32601) text), s)
  call_tool name (bound arguments) s =
      let (r, s') = authenticated_integration_tool str_of fetch mcp name arguments s in
      (tool_answer r, s')

  -- `tools/call` with its parameters.
  unfoldable pub tools_call : Json F → Session → Outcome McpAnswer × Session
  unfolding company_scoped_arguments authenticated_integration_tool or_empty get_field
  tools_call (object params) s =
      call_tool (get_field (codes "name") params)
        (company_scoped_arguments float_is
          (or_empty float_is (get_field (codes "arguments") params)) mcp.empresa_id)
        s
  tools_call null s = (returned (mcp_error (negsuc 32601) (codes "Invalid parameters.")), s)
  tools_call (boolean b) s = (returned (mcp_error (negsuc 32601) (codes "Invalid parameters.")), s)
  tools_call (integer n) s = (returned (mcp_error (negsuc 32601) (codes "Invalid parameters.")), s)
  tools_call (number x) s = (returned (mcp_error (negsuc 32601) (codes "Invalid parameters.")), s)
  tools_call (string t) s = (returned (mcp_error (negsuc 32601) (codes "Invalid parameters.")), s)
  tools_call (array items) s =
      (returned (mcp_error (negsuc 32601) (codes "Invalid parameters.")), s)

  unfoldable pub mcp_method : Fields F → Session → Outcome McpAnswer × Session
  unfolding tools_call get_field
  mcp_method request s =
      if is_text (get_field (codes "method") request) (codes "initialize")
      then (returned initialized, s)
      else if is_text (get_field (codes "method") request) (codes "tools/list")
      then (returned tools_listed, s)
      else if is_text (get_field (codes "method") request) (codes "tools/call")
      then tools_call (or_empty float_is (get_field (codes "params") request)) s
      else (returned (mcp_error (negsuc 32600) (codes "Unsupported method.")), s)

  unfoldable pub mcp_gated : Option Gate → Fields F → Session → Outcome McpAnswer × Session
  unfolding mcp_method
  mcp_gated none request s = (raised, s)
  mcp_gated (some unauthorized) request s =
      (returned (mcp_error (negsuc 32000) (codes "Unauthorized.")), s)
  mcp_gated (some (over rate_limited)) request s =
      (returned (mcp_error (negsuc 32028) (codes "Rate limit exceeded.")), s)
  mcp_gated (some (over unavailable)) request s =
      (returned (mcp_error (negsuc 32002) (codes "Rate-limit service unavailable.")), s)
  mcp_gated (some open_gate) request s = mcp_method request s

  abbrev pub replied : Option (Json F) → Outcome McpAnswer → Outcome (McpReply F)
  replied id raised = raised
  replied id (returned a) = returned (record { id = id; answer = a })

  unfoldable pub dispatch_mcp : Arrival → Fields F → Serving → Outcome (McpReply F) × Serving
  unfolding gate mcp_gated get_field
  dispatch_mcp a request (store, s) =
      let (g, store') = gate mcp (codes "mcp") a store in
      let (answer, s') = mcp_gated g request s in
      (replied (get_field (codes "id") request) answer, (store', s'))

  -- `action not in {…}`: a list or a dict has no hash, which raises TypeError.
  unfoldable pub is_action : Option (Json F) → Option Bool
  is_action (some (array items)) = none
  is_action (some (object fields)) = none
  is_action none = some false
  is_action (some null) = some false
  is_action (some (boolean b)) = some false
  is_action (some (integer n)) = some false
  is_action (some (number x)) = some false
  is_action (some (string t)) =
      some (str_eq t (codes "get_active_alerts") || str_eq t (codes "get_company_kpis"))

  abbrev pub act :
      Option (Json F) → Option Bool → Scoping F → Session → Outcome (A2aReply F) × Session
  act action none scoping s = (raised, s)
  act action (some false) scoping s =
      (returned (a2a_error (codes "unsupported_action") (codes "Unsupported action.")), s)
  act action (some true) (refused text) s =
      (returned (a2a_error (codes "tenant_not_authorized") text), s)
  act action (some true) (bound payload) s =
      let (r, s') = authenticated_integration_tool str_of fetch a2a action payload s in
      (completed_by action r, s')

  unfoldable pub a2a_gated : Option Gate → Fields F → Session → Outcome (A2aReply F) × Session
  unfolding is_action company_scoped_arguments authenticated_integration_tool or_empty get_field
  a2a_gated none message s = (raised, s)
  a2a_gated (some unauthorized) message s =
      (returned (a2a_error (codes "unauthorized") (codes "Unauthorized.")), s)
  a2a_gated (some (over rate_limited)) message s =
      (returned (a2a_error (codes "rate_limited") (codes "Rate limit exceeded.")), s)
  a2a_gated (some (over unavailable)) message s =
      (returned (a2a_error (codes "unavailable") (codes "Rate-limit service unavailable.")), s)
  a2a_gated (some open_gate) message s =
      act (get_field (codes "action") message) (is_action (get_field (codes "action") message))
        (company_scoped_arguments float_is (or_empty float_is (get_field (codes "payload") message))
          a2a.empresa_id)
        s

  unfoldable pub dispatch_a2a : Arrival → Fields F → Serving → Outcome (A2aReply F) × Serving
  unfolding gate a2a_gated
  dispatch_a2a a message (store, s) =
      let (g, store') = gate a2a (codes "a2a") a store in
      let (reply, s') = a2a_gated g message s in (reply, (store', s'))
