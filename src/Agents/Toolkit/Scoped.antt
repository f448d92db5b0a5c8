-- ===== src/Agents/Toolkit/Scoped.antt =====
-- Whatever arguments a model writes, a bound tool of app/agents/tools_bridge.py reads within the scope
-- of the request.
use mottainai_ia.Base.{
  ℕ, ◌≤◌, ◌≡◌, refl, sym, ap, ◌∙◌, subst, inl, inr, List, [], ◌∷◌, Option, none, some, some_inj,
  none-not-some, Bool-cases, All, length, length-map, ltb, map, arith, if◌then◌else◌,
}
use mottainai_ia.Base.Int.{ℤ, pos, ◌≤ℤ◌}
use mottainai_ia.Text.Case.{Str, codes}
use mottainai_ia.Text.Search.{str_eq, str_eq_iff}
use mottainai_ia.Agents.Toolkit.{
  Read, stock_alerts, inventory_status, expiring_batches, kpis, kpis_by_store, sales_summary,
  knowledge, Access, Arguments, Tool, ranged, store_filter, accessed, build_stock_alerts_tool,
  build_inventory_status_tool, build_expiring_batches_tool, build_kpis_tool,
  build_kpis_by_store_tool, build_sales_summary_tool, asked, build_retrieve_knowledge_tool,
  tool_builders, with_tool, build_all, build_toolkit,
}

abbrev Within : ℕ → ℤ → Type 0
Within hi n = (pos 1 ≤ℤ n) × (n ≤ℤ pos hi)

-- A store-scoped user reads the own store.
abbrev OwnStore : Option ℤ → Option ℤ → Type 0
OwnStore none store = Unit
OwnStore (some own) store = store ≡ some own

-- What a read may touch for a user of a store, or of none, and how far it may go.
abbrev pub IsBounded : Option ℤ → Read → Type 0
IsBounded own (stock_alerts n store) = Within 50 n × OwnStore own store
IsBounded own (inventory_status store) = OwnStore own store
IsBounded own (expiring_batches n store) = Within 90 n × OwnStore own store
IsBounded own kpis = Unit
IsBounded own (kpis_by_store n) = Within 365 n
IsBounded own (sales_summary n store) = Within 365 n × OwnStore own store
IsBounded own (knowledge q) = Unit

ranged-Within :
    (hi : ℕ) (default n : ℤ) (given : Option ℤ)
    → Within hi default
    → ranged (pos 1) (pos hi) default given ≡ some n
    → Within hi n
unfolding ranged
ranged-Within hi default n none d e = subst (Within hi) (some_inj.0 e) d
ranged-Within hi default n (some m) d e = ground (arith, e)

store_filter-OwnStore : (requested own : Option ℤ) → OwnStore own (store_filter requested own)
unfolding store_filter
store_filter-OwnStore requested none = tt
store_filter-OwnStore requested (some own) = refl

module _ (empresa_id : ℤ) (own : Option ℤ) where
  -- A tool reads the company of the request, and no other store than the user's.
  abbrev pub IsScoped : Tool → Type 0
  IsScoped t =
      (args : Arguments) (a : Access)
      → t.run args ≡ some a
      → (a.company ≡ empresa_id) × IsBounded own a.what

  accessed-IsScoped :
      (read : ℤ → Read) (o : Option ℤ) (a : Access)
      → ((n : ℤ) → o ≡ some n → IsBounded own (read n))
      → accessed empresa_id read o ≡ some a
      → (a.company ≡ empresa_id) × IsBounded own a.what
  accessed-IsScoped read none a h e = absurd (none-not-some e)
  accessed-IsScoped read (some n) a h e =
      subst (λ b. (b.company ≡ empresa_id) × IsBounded own b.what) (some_inj.0 e) (refl, h n refl)

  filtered_ranged :
      (hi : ℕ) (default : ℤ) (given requested : Option ℤ) (n : ℤ)
      → Within hi default
      → ranged (pos 1) (pos hi) default given ≡ some n
      → Within hi n × OwnStore own (store_filter requested own)
  filtered_ranged hi default given requested n d e =
      (ranged-Within hi default n given d e, store_filter-OwnStore requested own)

  -- A tool of the name, within the scope.
  abbrev Serves : Str → Tool → Type 0
  Serves name t = (t.name ≡ name) × IsScoped t

  stock_alerts-IsScoped : IsScoped (build_stock_alerts_tool empresa_id own)
  unfolding build_stock_alerts_tool
  stock_alerts-IsScoped args a e =
      accessed-IsScoped _ _ a
        (λ n r. filtered_ranged 50 (pos 10) args.limit args.store_id n (omega arith) r) e

  inventory_status-IsScoped : IsScoped (build_inventory_status_tool empresa_id own)
  unfolding build_inventory_status_tool
  inventory_status-IsScoped args a e =
      subst (λ b. (b.company ≡ empresa_id) × IsBounded own b.what) (some_inj.0 e)
        (refl, store_filter-OwnStore args.store_id own)

  expiring_batches-IsScoped : IsScoped (build_expiring_batches_tool empresa_id own)
  unfolding build_expiring_batches_tool
  expiring_batches-IsScoped args a e =
      accessed-IsScoped _ _ a
        (λ n r. filtered_ranged 90 (pos 7) args.days_ahead args.store_id n (omega arith) r) e

  kpis-IsScoped : IsScoped (build_kpis_tool empresa_id own)
  unfolding build_kpis_tool
  kpis-IsScoped args a e =
      subst (λ b. (b.company ≡ empresa_id) × IsBounded own b.what) (some_inj.0 e) (refl, tt)

  kpis_by_store-IsScoped : IsScoped (build_kpis_by_store_tool empresa_id own)
  unfolding build_kpis_by_store_tool
  kpis_by_store-IsScoped args a e =
      accessed-IsScoped _ _ a (λ n r. ranged-Within 365 (pos 30) n args.days_back (omega arith) r) e

  sales_summary-IsScoped : IsScoped (build_sales_summary_tool empresa_id own)
  unfolding build_sales_summary_tool
  sales_summary-IsScoped args a e =
      accessed-IsScoped _ _ a
        (λ n r. filtered_ranged 365 (pos 30) args.days_back args.store_id n (omega arith) r) e

  asked-IsScoped :
      (q : Option Str) (a : Access)
      → asked empresa_id own q ≡ some a
      → (a.company ≡ empresa_id) × IsBounded own a.what
  asked-IsScoped none a e = absurd (none-not-some e)
  asked-IsScoped (some q) a e =
      subst (λ b. (b.company ≡ empresa_id) × IsBounded own b.what) (some_inj.0 e) (refl, tt)

  retrieve_knowledge-IsScoped : IsScoped (build_retrieve_knowledge_tool empresa_id own)
  unfolding build_retrieve_knowledge_tool
  retrieve_knowledge-IsScoped args a e = asked-IsScoped args.query a e

  -- One entry of the table of builders.
  chosen :
      (name word : Str) (x : Tool) (o : Option Tool)
      → x.name ≡ word
      → IsScoped x
      → ((t : Tool) → o ≡ some t → Serves name t)
      → (t : Tool) → (if str_eq name word then some x else o) ≡ some t
      → Serves name t
  chosen name word x o named scoped others t e = elim (Bool-cases (str_eq name word)) [
    | inl this ↦
        subst (Serves name) (some_inj.0 (rw this at e))
          (named ∙ sym ((str_eq_iff name word).0 this), scoped)
    | inr other ↦ others t (rw other at e)
  ]

  tool_builders-Serves :
      (name : Str) (t : Tool) → tool_builders empresa_id own name ≡ some t → Serves name t
  unfolding tool_builders build_stock_alerts_tool build_inventory_status_tool
      build_expiring_batches_tool build_kpis_tool build_kpis_by_store_tool build_sales_summary_tool
      build_retrieve_knowledge_tool
  tool_builders-Serves name =
      chosen name (codes "get_stock_alerts") (build_stock_alerts_tool empresa_id own) _ refl
        stock_alerts-IsScoped
        (chosen name (codes "get_inventory_status") (build_inventory_status_tool empresa_id own) _
          refl inventory_status-IsScoped
          (chosen name (codes "get_expiring_batches") (build_expiring_batches_tool empresa_id own) _
            refl expiring_batches-IsScoped
            (chosen name (codes "get_kpis") (build_kpis_tool empresa_id own) _ refl kpis-IsScoped (
              chosen name (codes "get_kpis_by_store") (build_kpis_by_store_tool empresa_id own) _
                refl kpis_by_store-IsScoped
                (chosen name (codes "get_sales_summary") (build_sales_summary_tool empresa_id own) _
                  refl sales_summary-IsScoped
                  (chosen name (codes "retrieve_with_sources")
                    (build_retrieve_knowledge_tool empresa_id own) none refl
                    retrieve_knowledge-IsScoped (λ t e. absurd (none-not-some e))))))))

  with_tool-Serves :
      (name : Str) (names : List Str) (o : Option Tool) (os : Option (List Tool))
      (tools : List Tool)
      → ((t : Tool) → o ≡ some t → Serves name t)
      → ((ts : List Tool) → os ≡ some ts → (map (λ t. t.name) ts ≡ names) × All IsScoped ts)
      → with_tool empresa_id own o os ≡ some tools
      → (map (λ t. t.name) tools ≡ name ∷ names) × All IsScoped tools
  with_tool-Serves name names none os tools h hs e = absurd (none-not-some e)
  with_tool-Serves name names (some t) none tools h hs e = absurd (none-not-some e)
  with_tool-Serves name names (some t) (some ts) tools h hs e =
      let (named, scoped) = h t refl in
      let (all_named, all_scoped) = hs ts refl in
      subst (λ l. (map (λ t. t.name) l ≡ name ∷ names) × All IsScoped l) (some_inj.0 e)
        (λ i. named i ∷ all_named i, (scoped, all_scoped))

  build_all-IsScoped :
      (names : List Str) (tools : List Tool)
      → build_all empresa_id own names ≡ some tools
      → (map (λ t. t.name) tools ≡ names) × All IsScoped tools
  unfolding build_all
  build_all-IsScoped [] tools e =
      subst (λ l. (map (λ t. t.name) l ≡ []) × All IsScoped l) (some_inj.0 e) (refl, tt)
  build_all-IsScoped (name ∷ names) tools e =
      with_tool-Serves name names (tool_builders empresa_id own name)
        (build_all empresa_id own names) tools (tool_builders-Serves name)
        (λ ts. build_all-IsScoped names ts) e

  -- A toolkit has one tool for each name asked for, in their order and at most as many as the
  -- ceiling. Whatever arguments the model gives, a tool that passes validation reads the company of
  -- the request, at most 50 alerts, 90 days ahead and 365 days back, and where it takes a store, the own
  -- store of a user who has one.
  pub build_toolkit-IsScoped :
      (max_tools : ℕ) (names : List Str) (tools : List Tool)
      → build_toolkit empresa_id own max_tools names ≡ some tools
      → (length tools ≤ max_tools) × (map (λ t. t.name) tools ≡ names) × All IsScoped tools
  unfolding build_toolkit
  build_toolkit-IsScoped max_tools names tools e =
      elim (Bool-cases (ltb max_tools (length names))) [
        | inl many ↦ absurd (none-not-some (rw many at e))
        | inr few ↦
            let (named, scoped) = build_all-IsScoped names tools (rw few at e) in
            let le : length names ≤ max_tools = ground (arith, few) in
            (omega (arith, le, ap length named, length-map (λ t. t.name) tools), named, scoped)
      ]
