-- ===== src/Agents/Toolkit.antt =====
-- app/agents/tools_bridge.py: the tools that a request binds for its agent. A tool is its name and
-- what it reads for the arguments that the model gives; validation by pydantic is the ranges of the
-- schemas. That each call is timed and recorded is in app/observability/tool_runs.py.
pub mod Scoped
use mottainai_ia.Base.{
  ℕ, Bool, true, false, ◌&&◌, List, [], ◌∷◌, Option, none, some, length, ltb, if◌then◌else◌,
}
use mottainai_ia.Base.Int.{ℤ, pos, leb_ℤ}
use mottainai_ia.Text.Case.{Str, codes}
use mottainai_ia.Text.Search.{str_eq}

-- The functions of the data layer that tools call, with their arguments besides the company.
pub data Read : Type 0 where
  stock_alerts : ℤ → Option ℤ → Read
  inventory_status : Option ℤ → Read
  expiring_batches : ℤ → Option ℤ → Read
  kpis : Read
  kpis_by_store : ℤ → Read
  sales_summary : ℤ → Option ℤ → Read
  knowledge : Str → Read

pub record Access : Type 0 where
  pub company : ℤ
  pub what : Read

-- The arguments of a tool call; a key that a schema does not name is ignored.
pub record Arguments : Type 0 where
  pub limit : Option ℤ
  pub days_ahead : Option ℤ
  pub days_back : Option ℤ
  pub store_id : Option ℤ
  pub query : Option Str
  -- What the model wrote under `empresa_id`.
  pub empresa_id : Option ℤ

pub record Tool : Type 0 where
  pub name : Str
  -- `none` is a validation error.
  pub run : Arguments → Option Access

-- `Field(default=…, ge=lo, le=hi)`
unfoldable pub ranged : ℤ → ℤ → ℤ → Option ℤ → Option ℤ
ranged lo hi default none = some default
ranged lo hi default (some n) = if leb_ℤ lo n && leb_ℤ n hi then some n else none

-- `_store_filter`
unfoldable pub store_filter : Option ℤ → Option ℤ → Option ℤ
store_filter requested none = requested
store_filter requested (some n) = some n

abbrev pub accessed : ℤ → (ℤ → Read) → Option ℤ → Option Access
accessed empresa_id read none = none
accessed empresa_id read (some n) = some (record { company = empresa_id; what = read n })

module _ (empresa_id : ℤ) (authenticated_store_id : Option ℤ) where
  unfoldable pub build_stock_alerts_tool : Tool
  unfolding ranged store_filter
  build_stock_alerts_tool = record {
    name = codes "get_stock_alerts";
    run = λ args.
        accessed empresa_id
          (λ n. stock_alerts n (store_filter args.store_id authenticated_store_id))
          (ranged (pos 1) (pos 50) (pos 10) args.limit);
  }

  unfoldable pub build_inventory_status_tool : Tool
  unfolding store_filter
  build_inventory_status_tool = record {
    name = codes "get_inventory_status";
    run = λ args. some (record {
      company = empresa_id;
      what = inventory_status (store_filter args.store_id authenticated_store_id);
    });
  }

  unfoldable pub build_expiring_batches_tool : Tool
  unfolding ranged store_filter
  build_expiring_batches_tool = record {
    name = codes "get_expiring_batches";
    run = λ args.
        accessed empresa_id
          (λ n. expiring_batches n (store_filter args.store_id authenticated_store_id))
          (ranged (pos 1) (pos 90) (pos 7) args.days_ahead);
  }

  unfoldable pub build_kpis_tool : Tool
  build_kpis_tool = record {
    name = codes "get_kpis";
    run = λ args. some (record { company = empresa_id; what = kpis });
  }

  unfoldable pub build_kpis_by_store_tool : Tool
  unfolding ranged
  build_kpis_by_store_tool = record {
    name = codes "get_kpis_by_store";
    run = λ args.
        accessed empresa_id kpis_by_store (ranged (pos 1) (pos 365) (pos 30) args.days_back);
  }

  unfoldable pub build_sales_summary_tool : Tool
  unfolding ranged store_filter
  build_sales_summary_tool = record {
    name = codes "get_sales_summary";
    run = λ args.
        accessed empresa_id
          (λ n. sales_summary n (store_filter args.store_id authenticated_store_id))
          (ranged (pos 1) (pos 365) (pos 30) args.days_back);
  }

  abbrev pub asked : Option Str → Option Access
  asked none = none
  asked (some q) = some (record { company = empresa_id; what = knowledge q })

  unfoldable pub build_retrieve_knowledge_tool : Tool
  build_retrieve_knowledge_tool = record {
    name = codes "retrieve_with_sources";
    run = λ args. asked args.query;
  }

  -- `_TOOL_BUILDERS[name]`, built; a KeyError is `none`.
  unfoldable pub tool_builders : Str → Option Tool
  unfolding str_eq build_stock_alerts_tool build_inventory_status_tool build_expiring_batches_tool
      build_kpis_tool build_kpis_by_store_tool build_sales_summary_tool
      build_retrieve_knowledge_tool
  tool_builders name =
      if str_eq name (codes "get_stock_alerts")
      then some build_stock_alerts_tool
      else if str_eq name (codes "get_inventory_status")
      then some build_inventory_status_tool
      else if str_eq name (codes "get_expiring_batches")
      then some build_expiring_batches_tool
      else if str_eq name (codes "get_kpis")
      then some build_kpis_tool
      else if str_eq name (codes "get_kpis_by_store")
      then some build_kpis_by_store_tool
      else if str_eq name (codes "get_sales_summary")
      then some build_sales_summary_tool
      else if str_eq name (codes "retrieve_with_sources")
      then some build_retrieve_knowledge_tool
      else none

  abbrev pub with_tool : Option Tool → Option (List Tool) → Option (List Tool)
  with_tool none tools = none
  with_tool (some t) none = none
  with_tool (some t) (some ts) = some (t ∷ ts)

  unfoldable pub build_all : List Str → Option (List Tool)
  unfolding tool_builders
  build_all [] = some []
  build_all (name ∷ names) = with_tool (tool_builders name) (build_all names)

  -- ValueError, on too many names, and KeyError are both `none`.
  unfoldable pub build_toolkit : ℕ → List Str → Option (List Tool)
  unfolding build_all
  build_toolkit max_tools names = if ltb max_tools (length names) then none else build_all names
