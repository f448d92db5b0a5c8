-- ===== src/Tests/Toolkit.antt =====
-- The tools of a user who belongs to store 3 of company 7.
use mottainai_ia.Base.{◌≡◌, ◌≤◌, refl, List, [], ◌∷◌, none, some, map, length, All}
use mottainai_ia.Base.Int.{ℤ, pos}
use mottainai_ia.Text.Case.{Str, codes}
use mottainai_ia.Text.Search.{str_eq}
use mottainai_ia.Agents.Toolkit.{
  stock_alerts, Arguments, Tool, ranged, store_filter, build_stock_alerts_tool, build_kpis_tool,
  tool_builders, build_all, build_toolkit,
}
use mottainai_ia.Agents.Toolkit.Scoped.{IsScoped, build_toolkit-IsScoped}

-- The model asks for the alerts of store 9 and company 8.
abbrev foreign : ℤ → Arguments
foreign n = record {
  limit = some n;
  days_ahead = none;
  days_back = none;
  store_id = some (pos 9);
  query = none;
  empresa_id = some (pos 8);
}

reads_own :
    (build_stock_alerts_tool (pos 7) (some (pos 3))).run (foreign (pos 20))
    ≡ some (record { company = pos 7; what = stock_alerts (pos 20) (some (pos 3)) })
unfolding build_stock_alerts_tool ranged store_filter
reads_own = refl

refuses_many : (build_stock_alerts_tool (pos 7) (some (pos 3))).run (foreign (pos 51)) ≡ none
unfolding build_stock_alerts_tool ranged
refuses_many = refl

abbrev names : List Str
names = codes "get_stock_alerts" ∷ codes "get_kpis" ∷ []

abbrev toolkit : List Tool
toolkit =
    build_stock_alerts_tool (pos 7) (some (pos 3)) ∷ build_kpis_tool (pos 7) (some (pos 3)) ∷ []

builds_two : build_toolkit (pos 7) (some (pos 3)) 8 names ≡ some toolkit
unfolding build_toolkit build_all tool_builders str_eq
builds_two = refl

build_toolkit-IsScoped_example :
    (length toolkit ≤ 8)
    × (map (λ t. t.name) toolkit ≡ names)
    × All (IsScoped (pos 7) (some (pos 3))) toolkit
build_toolkit-IsScoped_example =
    build_toolkit-IsScoped (pos 7) (some (pos 3)) 8 names toolkit builds_two
