-- ===== src/Integrations/Tools.antt =====
-- The tools of an integration: `_authenticated_integration_tool` of app/integrations/mcp_a2a.py and
-- `mcp_expose_tool` of app/tools/mcp_tools.py.
pub mod Bounded
use mottainai_ia.Base.{
  Bool, true, false, ◌&&◌, List, [], ◌∷◌, ◌++◌, Option, none, some, if◌then◌else◌,
}
use mottainai_ia.Base.Int.{ℤ, pos, leb_ℤ}
use mottainai_ia.Text.Case.{Str, codes}
use mottainai_ia.Text.Search.{str_eq, str_mem}
use mottainai_ia.Security.Claims.{is_email_hash}
use mottainai_ia.Security.Tokens.{OperationalIdentity}
use mottainai_ia.Agents.Judge.{
  Json, null, boolean, integer, number, string, array, object, Fields, get_field,
}
use mottainai_ia.Integrations.{
  Outcome, returned, raised, Integration, Lookup, stock_alerts, kpis, Fetched, rows, denied,
  unpublished, broke, ToolResult, tool_error, tool_result, Exposed, own_error, consulted, Session,
}

-- `value == word`
abbrev pub is_text : {F : Type 0} → Option (Json F) → Str → Bool
is_text (some (string s)) word = str_eq s word
is_text (some null) word = false
is_text (some (boolean b)) word = false
is_text (some (integer n)) word = false
is_text (some (number x)) word = false
is_text (some (array items)) word = false
is_text (some (object fields)) word = false
is_text none word = false

abbrev pub integer_of : {F : Type 0} → Option (Json F) → Option ℤ
integer_of (some (integer n)) = some n
integer_of (some null) = none
integer_of (some (boolean b)) = none
integer_of (some (number x)) = none
integer_of (some (string s)) = none
integer_of (some (array items)) = none
integer_of (some (object fields)) = none
integer_of none = none

abbrev pub roles : List Str
roles = codes "DONO" ∷ codes "GERENTE" ∷ codes "ESTOQUISTA" ∷ []

unfoldable pub is_configured : Integration → Bool
unfolding str_mem is_email_hash
is_configured c =
    leb_ℤ (pos 1) c.user_id && (str_mem c.role roles && is_email_hash c.operational_identity)

-- The account of the integration, with no store.
abbrev pub identity_of : Integration → ℤ → OperationalIdentity
identity_of c company = record {
  user_id = c.user_id;
  company_id = company;
  its_role = c.role;
  login_identity = c.operational_identity;
  its_store = none;
}

module _ {F : Type 0} (str_of : Option (Json F) → Str)
    (fetch : Option OperationalIdentity → ℤ → Lookup → Fetched F) where
  -- The call of the data layer under the current identity.
  unfoldable pub consult : ℤ → Lookup → Session → Fetched F × Session
  consult company what s =
      (fetch s.current company what, record s { asked = (s.current, company, what) ∷ s.asked })

  abbrev consulting : Fetched F × Session → Exposed F × Session
  consulting (f, s) = (consulted f, s)

  unfoldable pub expose_for : Option (Json F) → ℤ → Session → Exposed F × Session
  unfolding consult str_eq
  expose_for tool_name empresa_id s =
      if is_text tool_name (codes "get_active_alerts")
      then consulting (consult empresa_id stock_alerts s)
      else if is_text tool_name (codes "get_company_kpis")
      then consulting (consult empresa_id kpis s)
      else (own_error (codes "Tool '" ++ str_of tool_name ++ codes "' not found."), s)

  abbrev pub expose_checked : Option (Json F) → Option ℤ → Session → Exposed F × Session
  expose_checked tool_name none s = (own_error (codes "An authorized company is required."), s)
  expose_checked tool_name (some n) s =
      if leb_ℤ (pos 1) n
      then expose_for tool_name n s
      else (own_error (codes "An authorized company is required."), s)

  unfoldable pub mcp_expose_tool : Option (Json F) → Fields F → Session → Exposed F × Session
  unfolding expose_for get_field
  mcp_expose_tool tool_name params s =
      expose_checked tool_name (integer_of (get_field (codes "empresa_id") params)) s

  unfoldable pub caught : Exposed F → Outcome (ToolResult F)
  caught (own_error text) = returned (tool_error text)
  caught (consulted (rows r)) = returned (tool_result r)
  caught (consulted denied) =
      returned (tool_error (codes "Operational identity or permissions are unavailable."))
  caught (consulted unpublished) =
      returned (tool_error (codes "Published analytical data are unavailable."))
  caught (consulted broke) = raised

  abbrev finally_reset :
      Option OperationalIdentity → Exposed F × Session → Outcome (ToolResult F) × Session
  finally_reset before (e, s) = (caught e, record s { current = before })

  abbrev pub run_as :
      Integration
      → Option (Json F)
      → Fields F
      → Option ℤ
      → Session
      → Outcome (ToolResult F) × Session
  run_as c name arguments none s = (raised, s)
  run_as c name arguments (some company) s =
      finally_reset s.current
        (mcp_expose_tool name arguments (record s { current = some (identity_of c company) }))

  -- `_authenticated_integration_tool`; `arguments["empresa_id"]` that is missing is a KeyError.
  unfoldable pub authenticated_integration_tool :
      Integration → Option (Json F) → Fields F → Session → Outcome (ToolResult F) × Session
  unfolding is_configured mcp_expose_tool caught get_field
  authenticated_integration_tool c name arguments s =
      if is_configured c
      then run_as c name arguments (integer_of (get_field (codes "empresa_id") arguments)) s
      else (
        returned (
            tool_error
              (codes "Configure the integration's operational user and protected identity.")),
        s,
      )
