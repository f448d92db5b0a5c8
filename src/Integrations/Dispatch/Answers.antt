-- ===== src/Integrations/Dispatch/Answers.antt =====
-- What `POST /a2a` of interfaces/api/main.py answers to a request that passes every check.
use mottainai_ia.Base.{◌≡◌, refl, ap, ◌∙◌, subst, true, none, some}
use mottainai_ia.Base.Int.{ℤ, pos, leb_ℤ}
use mottainai_ia.Text.Case.{Str, codes}
use mottainai_ia.Text.Search.{str_eq}
use mottainai_ia.Agents.Judge.{integer, string, Fields, get_field}
use mottainai_ia.Integrations.{
  Integration, Lookup, stock_alerts, kpis, Fetched, rows, denied, unpublished, broke, tool_result,
  Session, authorized, bound, company_scoped_arguments, or_empty, consulted,
}
use mottainai_ia.Integrations.Tools.{
  consult, expose_for, mcp_expose_tool, caught, is_configured, identity_of,
  authenticated_integration_tool,
}
use mottainai_ia.Integrations.Tools.Bounded.{Company, company_scoped_arguments-Company}
use mottainai_ia.Integrations.Dispatch.{
  Deployment, Arrival, A2aReply, completed, completed_by, act, HttpAnswer, ok, server_error,
  integration_rate_error, gate, is_action, a2a_gated, dispatch_a2a,
}
use mottainai_ia.Integrations.Dispatch.Routes.{error_code, by_code, a2a_answer, a2a_message}

-- The action that asks for a lookup.
abbrev pub word : Lookup → Str
word stock_alerts = codes "get_active_alerts"
word kpis = codes "get_company_kpis"

-- The rows in the result, or a server error.
abbrev pub answer_of : {F : Type 0} → Lookup → Fetched F → HttpAnswer (A2aReply F)
answer_of what (rows r) = ok (completed (some (string (word what))) (tool_result r))
answer_of what denied = server_error
answer_of what unpublished = server_error
answer_of what broke = server_error

module _ {F : Type 0} (d : Deployment F) where
  open d use {float_is, str_of, fetch, redis, settings, rate_limit_integration_rpm, mcp, a2a}

  -- The outcome of the tool that an action names.
  tool_of :
      (c : Integration) (what : Lookup) (fs : Fields F) (n : ℤ) (s : Session)
      → is_configured c ≡ true
      → leb_ℤ (pos 1) n ≡ true
      → get_field (codes "empresa_id") fs ≡ some (integer n)
      → (authenticated_integration_tool str_of fetch c (some (string (word what))) fs s).0
        ≡ caught str_of fetch (consulted (fetch (some (identity_of c n)) n what))
  unfolding authenticated_integration_tool mcp_expose_tool expose_for consult str_eq
  tool_of c stock_alerts fs n s complete positive there = rw (complete, there, there, positive) refl
  tool_of c kpis fs n s complete positive there = rw (complete, there, there, positive) refl

  answered :
      (what : Lookup) (f : Fetched F)
      → a2a_answer (completed_by (some (string (word what))) (caught str_of fetch (consulted f)))
        ≡ answer_of what f
  unfolding a2a_answer error_code by_code caught
  answered what (rows r) = refl
  answered what denied = refl
  answered what unpublished = refl
  answered what broke = refl

  acted :
      (what : Lookup) (fs : Fields F) (s : Session)
      → is_configured a2a ≡ true
      → Company a2a.empresa_id (bound fs)
      → a2a_answer
          (act d
            (some (string (word what)))
            (is_action d (some (string (word what))))
            (bound fs)
            s).0
        ≡ answer_of what (fetch (some (identity_of a2a a2a.empresa_id)) a2a.empresa_id what)
  unfolding is_action str_eq
  acted stock_alerts fs s complete (positive, there) =
      ap (λ o. a2a_answer (completed_by (some (string (word stock_alerts))) o))
        (tool_of a2a stock_alerts fs a2a.empresa_id s complete positive there)
      ∙ answered stock_alerts _
  acted kpis fs s complete (positive, there) =
      ap (λ o. a2a_answer (completed_by (some (string (word kpis))) o))
        (tool_of a2a kpis fs a2a.empresa_id s complete positive there)
      ∙ answered kpis _

  -- A request on /a2a with the right token, within the budget, of one of the two actions and of no
  -- other company, to an integration whose account is complete, is answered with the rows that the
  -- data layer has for the company under that account. If the data layer refuses the account, has
  -- nothing published or fails, the answer is a server error.
  pub a2a_message-answers :
      (a : Arrival) (payload : Fields F) (store : redis.Store) (s : Session) (what : Lookup)
      (fs : Fields F)
      → authorized a.authorization a2a.shared_token ≡ some true
      → (integration_rate_error d (codes "a2a") a2a.empresa_id a store).0 ≡ none
      → get_field (codes "action") payload ≡ some (string (word what))
      → company_scoped_arguments float_is
          (or_empty float_is (get_field (codes "payload") payload))
          a2a.empresa_id
        ≡ bound fs
      → is_configured a2a ≡ true
      → (a2a_message d a payload (store, s)).0
        ≡ answer_of what (fetch (some (identity_of a2a a2a.empresa_id)) a2a.empresa_id what)
  unfolding a2a_message dispatch_a2a gate a2a_gated
  a2a_message-answers a payload store s what fs token budget action scope complete =
      rw (token, budget, action, scope)
        (acted what fs s complete (
          subst (Company a2a.empresa_id) scope (
            company_scoped_arguments-Company float_is
              (or_empty float_is (get_field (codes "payload") payload)) a2a.empresa_id)))
