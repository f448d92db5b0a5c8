-- ===== src/Integrations.antt =====
-- app/integrations/mcp_a2a.py, with `mcp_expose_tool` of app/tools/mcp_tools.py: what an external
-- agent with a shared token may ask. The data layer and Python's `str` of a value are parameters; the
-- fixed texts of the agent card and of the tool list are left out.
pub mod Tools
pub mod Webhook
pub mod Dispatch
use mottainai_ia.Base.{
  Bool, true, false, not, ◌&&◌, List, [], ◌∷◌, ◌++◌, Option, none, some, all, drop, ltb,
  if◌then◌else◌,
}
use mottainai_ia.Base.Int.{ℤ, pos, leb_ℤ, eqb_ℤ}
use mottainai_ia.Text.Case.{Str, codes}
use mottainai_ia.Text.Search.{str_eq, str_mem, starts_with}
use mottainai_ia.Security.Claims.{is_configured_jwt_secret, is_email_hash}
use mottainai_ia.Security.Tokens.{OperationalIdentity}
use mottainai_ia.Agents.Judge.{
  Json, null, boolean, integer, number, string, array, object, nil, cons, Fields, end, field,
  get_field,
}

-- What a call gives back; `raised` is an exception that the module does not catch.
pub data Outcome (A : Type 0) : Type 0 where
  returned : A → Outcome A
  raised : Outcome A

-- The settings of one integration: those under `mcp_` or `a2a_`.
pub record Integration : Type 0 where
  pub shared_token : Str
  pub empresa_id : ℤ
  pub user_id : ℤ
  pub operational_identity : Str
  pub role : Str

-- The two functions of the data layer that the tools call.
pub data Lookup : Type 0 where
  stock_alerts kpis : Lookup

-- What the data layer does: rows, PermissionError, AnalyticsPublicationUnavailable, or another error.
pub data Fetched (F : Type 0) : Type 0 where
  rows : Json F → Fetched F
  denied unpublished broke : Fetched F

-- The result of a tool, without its name.
pub data ToolResult (F : Type 0) : Type 0 where
  tool_error : Str → ToolResult F
  tool_result : Json F → ToolResult F

-- A tool's own error, or what the data layer does.
pub data Exposed (F : Type 0) : Type 0 where
  own_error : Str → Exposed F
  consulted : Fetched F → Exposed F

-- `current_identity`, and what the data layer was asked for: the identity then, the company and the
-- function, the latest first.
pub record Session : Type 0 where
  pub current : Option OperationalIdentity
  pub asked : List (Option OperationalIdentity × ℤ × Lookup)

-- `secrets.compare_digest` of two strings, which takes ASCII only and else raises TypeError.
unfoldable pub compare_digest : Str → Str → Option Bool
unfolding str_eq
compare_digest a b =
    if all (λ c. ltb c 128) a && all (λ c. ltb c 128) b then some (str_eq a b) else none

unfoldable pub presented : Str → Str → Option Bool
unfolding compare_digest starts_with
presented header expected =
    if starts_with header (codes "Bearer ")
    then compare_digest (drop 7 header) expected
    else some false

-- `_authorized`
unfoldable pub authorized : Option Str → Str → Option Bool
unfolding is_configured_jwt_secret presented
authorized none expected = some false
authorized (some header) expected =
    if is_configured_jwt_secret expected then presented header expected else some false

-- The arguments with their company, or a message.
pub data Scoping (F : Type 0) : Type 0 where
  bound : Fields F → Scoping F
  refused : Str → Scoping F

module _ {F : Type 0} (float_is : F → ℤ → Bool) where
  -- `value == n`, of a value that JSON carries and an `int`; `True` is 1 and `False` is 0.
  unfoldable pub equals_int : Json F → ℤ → Bool
  equals_int (integer m) n = eqb_ℤ m n
  equals_int (boolean true) n = eqb_ℤ (pos 1) n
  equals_int (boolean false) n = eqb_ℤ (pos 0) n
  equals_int (number x) n = float_is x n
  equals_int null n = false
  equals_int (string s) n = false
  equals_int (array items) n = false
  equals_int (object fields) n = false

  -- `value or {}`
  unfoldable pub or_empty : Option (Json F) → Json F
  unfolding equals_int
  or_empty none = object end
  or_empty (some null) = object end
  or_empty (some (string [])) = object end
  or_empty (some (array nil)) = object end
  or_empty (some (boolean b)) = if b then boolean b else object end
  or_empty (some (integer n)) = if eqb_ℤ n (pos 0) then object end else integer n
  or_empty (some (number x)) = if float_is x (pos 0) then object end else number x
  or_empty (some (string (c ∷ s))) = string (c ∷ s)
  or_empty (some (array (cons x xs))) = array (cons x xs)
  or_empty (some (object fields)) = object fields

  -- `{**fields, key: value}`
  unfoldable pub with_field : Str → Json F → Fields F → Fields F
  unfolding str_eq
  with_field key value end = field key value end
  with_field key value (field k v rest) =
      let tail = with_field key value rest in
      if str_eq k key then field k value rest else field k v tail

  -- `requested_empresa_id is not None and requested_empresa_id != authorized_empresa_id`
  unfoldable pub names_other : Option (Json F) → ℤ → Bool
  unfolding equals_int
  names_other none n = false
  names_other (some null) n = false
  names_other (some (boolean b)) n = not (equals_int (boolean b) n)
  names_other (some (integer m)) n = not (equals_int (integer m) n)
  names_other (some (number x)) n = not (equals_int (number x) n)
  names_other (some (string s)) n = true
  names_other (some (array items)) n = true
  names_other (some (object fields)) n = true

  unfoldable pub bind_fields : Json F → ℤ → Scoping F
  unfolding with_field names_other get_field
  bind_fields (object fields) n =
      if names_other (get_field (codes "empresa_id") fields) n
      then refused (codes "Company not authorized.")
      else bound (with_field (codes "empresa_id") (integer n) fields)
  bind_fields null n = refused (codes "Invalid arguments.")
  bind_fields (boolean b) n = refused (codes "Invalid arguments.")
  bind_fields (integer m) n = refused (codes "Invalid arguments.")
  bind_fields (number x) n = refused (codes "Invalid arguments.")
  bind_fields (string s) n = refused (codes "Invalid arguments.")
  bind_fields (array items) n = refused (codes "Invalid arguments.")

  -- `_company_scoped_arguments`
  unfoldable pub company_scoped_arguments : Json F → ℤ → Scoping F
  unfolding bind_fields
  company_scoped_arguments arguments authorized_empresa_id =
      if leb_ℤ (pos 1) authorized_empresa_id
      then bind_fields arguments authorized_empresa_id
      else refused (codes "Integration has no authorized company configured.")
