-- ===== src/Tests/Integrations.antt =====
-- An agent that asks for the alerts of company 7 over A2A.
use mottainai_ia.Base.{ℕ, ◌*◌, ◌≡◌, refl, Bool, true, [], Option, none, some}
use mottainai_ia.Base.Int.{ℤ, pos, eqb_ℤ, pos_part}
use mottainai_ia.Text.Case.{Str, codes, lower, strip}
use mottainai_ia.Text.Search.{str_eq, str_mem, starts_with}
use mottainai_ia.Text.Regex.{is_word}
use mottainai_ia.Text.Decimal.{str_ℤ}
use mottainai_ia.Cache.Keyspace.{endpoint_rate_limit}
use mottainai_ia.Security.Claims.{is_configured_jwt_secret, is_email_hash, is_hex}
use mottainai_ia.Security.Tokens.{OperationalIdentity}
use mottainai_ia.Agents.Judge.{Json, integer, string, object, Fields, end, field, get_field}
use mottainai_ia.Cache.RateLimit.{
  RateLimitSettings, check_endpoint_rate_limit, check_key, rate_limit_script, is_scope,
}
use mottainai_ia.Integrations.{
  Integration, Lookup, stock_alerts, kpis, Fetched, rows, denied, Session, presented,
  compare_digest, authorized, bound, or_empty, with_field, names_other, bind_fields,
  company_scoped_arguments,
}
use mottainai_ia.Integrations.Tools.{is_configured}
use mottainai_ia.Integrations.Dispatch.{
  Deployment, Arrival, integration_rate_error, dispatch_mcp, dispatch_a2a,
}
use mottainai_ia.Integrations.Dispatch.Routes.{a2a_message}
use mottainai_ia.Integrations.Dispatch.Scoped.{Scoped, dispatch-Scoped}
use mottainai_ia.Integrations.Dispatch.Answers.{answer_of, a2a_message-answers}
use mottainai_ia.Tests.Instances.{sets, Sets}

-- Tenths for floats.
abbrev float_is : ℕ → ℤ → Bool
float_is x n = eqb_ℤ (pos x) (pos (pos_part n * 10))

abbrev str_of : Option (Json ℕ) → Str
str_of v = codes "dados"

-- Alerts are there, and the account may not see the indicators.
abbrev fetch : Option OperationalIdentity → ℤ → Lookup → Fetched ℕ
fetch identity n stock_alerts = rows (integer n)
fetch identity n kpis = denied

abbrev settings : RateLimitSettings
settings = record { rate_limit_window_seconds = 60; rate_limit_rpm = 20 }

abbrev token : Str
token = codes "3f9ab0c7-inventory-agent-secret-51"

abbrev account : Str
account = codes "EMAIL_SHA256_0123456789abcdef0123456789abcdef0123456789abcdef0123456789abcdef"

abbrev mcp : Integration
mcp = record {
  shared_token = [];
  empresa_id = pos 0;
  user_id = pos 0;
  operational_identity = [];
  role = codes "DONO";
}

abbrev a2a : Integration
a2a = record {
  shared_token = token;
  empresa_id = pos 7;
  user_id = pos 4;
  operational_identity = account;
  role = codes "GERENTE";
}

abbrev deployment : Deployment ℕ
deployment = record {
  float_is = float_is;
  str_of = str_of;
  fetch = fetch;
  redis = sets;
  settings = settings;
  rate_limit_integration_rpm = 60;
  mcp = mcp;
  a2a = a2a;
}

abbrev arrival : Arrival
arrival = record {
  call = record { now_ms = 100000; token = codes "a1" };
  redis_answers = true;
  authorization = some (codes "Bearer 3f9ab0c7-inventory-agent-secret-51");
}

abbrev asking : Str → Fields ℕ
asking action = field (codes "action") (string action) (field (codes "payload") (object end) end)

abbrev no_calls : Sets
no_calls t key = []

abbrev idle : Session
idle = record { current = none; asked = [] }

abbrev own_company : Fields ℕ
own_company = field (codes "empresa_id") (integer (pos 7)) end

holds_token : authorized arrival.authorization a2a.shared_token ≡ some true
unfolding authorized presented compare_digest is_configured_jwt_secret lower strip starts_with
    str_eq
holds_token = refl

within_budget : (integration_rate_error deployment (codes "a2a") (pos 7) arrival no_calls).0 ≡ none
unfolding integration_rate_error check_endpoint_rate_limit check_key rate_limit_script is_scope
    is_word str_eq endpoint_rate_limit str_ℤ
within_budget = refl

takes_company :
    company_scoped_arguments float_is
      (or_empty float_is (get_field (codes "payload") (asking (codes "get_active_alerts"))))
      (pos 7)
    ≡ bound own_company
unfolding company_scoped_arguments bind_fields or_empty with_field names_other get_field str_eq
takes_company = refl

is_complete : is_configured a2a ≡ true
unfolding is_configured is_email_hash is_hex str_mem str_eq starts_with
is_complete = refl

finds_action :
    get_field (codes "action") (asking (codes "get_active_alerts"))
    ≡ some (string (codes "get_active_alerts"))
unfolding get_field str_eq
finds_action = refl

a2a_message-answers_example :
    (a2a_message deployment arrival (asking (codes "get_active_alerts")) (no_calls, idle)).0
    ≡ answer_of stock_alerts (rows (integer (pos 7)))
a2a_message-answers_example =
    a2a_message-answers deployment arrival (asking (codes "get_active_alerts")) no_calls idle
      stock_alerts own_company holds_token within_budget finds_action takes_company is_complete

dispatch-Scoped_example :
    Scoped mcp arrival idle
      (dispatch_mcp deployment arrival (asking (codes "get_company_kpis")) (no_calls, idle)).1.1
    × Scoped a2a arrival idle
        (dispatch_a2a deployment arrival (asking (codes "get_company_kpis")) (no_calls, idle)).1.1
dispatch-Scoped_example =
    dispatch-Scoped deployment arrival (asking (codes "get_company_kpis")) no_calls idle
