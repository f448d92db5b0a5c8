-- ===== src/Agents/Intents.antt =====
-- app/agents/intent_catalog.py: the keyword catalog, its cache and the matching rule.
pub mod Match
use mottainai_ia.Base.{
  ℕ, suc, ◌+◌, ◌*◌, ◌-◌, Bool, true, false, List, [], ◌∷◌, Option, none, some, String, ltb, ◌==◌,
  if◌then◌else◌, length, count, any,
}
use mottainai_ia.Base.Floats.{Floats}
use mottainai_ia.Text.Case.{Str, codes}
use mottainai_ia.Text.Search.{str_mem, str_contains}

-- A document of the collection. `.get` gives `none` where the field is missing or null, but a
-- threshold that is null, `some none`, is not one that is missing; the `key` is required by the schema.
pub record Intent (F : Type 0) : Type 0 where
  pub key : Str
  pub agent : Option Str
  pub examples : Option (List Str)
  pub confidence_threshold : Option (Option F)

-- What `match_intent` returns where something matches.
pub record Matched (F : Type 0) : Type 0 where
  pub key : Str
  pub agent : Str
  pub confidence : F

abbrev pub forecast_examples : List Str
forecast_examples =
    codes "previsão"
    ∷ codes "previsao"
    ∷ codes "prever"
    ∷ codes "preve"
    ∷ codes "prevê"
    ∷ codes "demanda"
    ∷ codes "abastecimento"
    ∷ codes "tendência"
    ∷ codes "tendencia"
    ∷ codes "vai acabar"
    ∷ codes "quando acaba"
    ∷ codes "risco de falta"
    ∷ codes "risco de perda"
    ∷ codes "projeção"
    ∷ codes "projecao"
    ∷ codes "próxima semana"
    ∷ codes "proxima semana"
    ∷ codes "próximo mês"
    ∷ codes "proximo mes"
    ∷ []

abbrev pub faq_examples : List Str
faq_examples =
    codes "faq"
    ∷ codes "dúvida"
    ∷ codes "duvida"
    ∷ codes "como funciona"
    ∷ codes "ajuda"
    ∷ codes "suporte"
    ∷ codes "fidelidade"
    ∷ codes "pontos"
    ∷ codes "sustentabilidade"
    ∷ []

-- `intent.get("examples") or []`
abbrev pub examples_of : {F : Type 0} → Intent F → List Str
examples_of intent = elim intent.examples [ none ↦ [] | some xs ↦ xs ]

module _ (fl : Floats) where
  open fl use {F, lt, zero_point, ratio}

  abbrev pub forecast_intent : Intent F
  forecast_intent = record {
    key = codes "motor_preditivo_forecast";
    agent = some (codes "motor_preditivo");
    examples = some forecast_examples;
    confidence_threshold = some (some zero_point);
  }

  abbrev pub faq_intent : Intent F
  faq_intent = record {
    key = codes "cliente_faq";
    agent = some (codes "faq");
    examples = some faq_examples;
    confidence_threshold = some (some zero_point);
  }

  abbrev pub fallback_intents : List (Intent F)
  fallback_intents = forecast_intent ∷ faq_intent ∷ []

  -- `intent.get("confidenceThreshold", 0.0)`, which is None for a null.
  abbrev threshold_of : Intent F → Option F
  threshold_of intent = elim intent.confidence_threshold [ none ↦ some zero_point | some t ↦ t ]

  -- `sum(1 for example in examples if example in text)`
  abbrev pub matches_in : Str → List Str → ℕ
  matches_in text examples = count (λ example. str_contains example text) examples

  -- The body of the loop: `some none` skips the intent; `none` is the TypeError of a comparison with
  -- None.
  unfoldable pub candidate : Str → List Str → Intent F → Option (Option (Matched F))
  candidate text candidate_agents intent = elim intent.agent [
    | none ↦ some none
    | some agent ↦
        let examples = examples_of intent in
        let matches = matches_in text examples in
        let confidence = ratio matches (length examples) in
        if str_mem agent candidate_agents
        then if length examples == 0
          then some none
          else if matches == 0
          then some none
          else elim (threshold_of intent) [
            | none ↦ none
            | some threshold ↦
                if lt confidence threshold
                then some none
                else some
                    (some (record { key = intent.key; agent = agent; confidence = confidence }))
          ]
        else some none
  ]

  -- `if best is None or confidence > best[2]`
  unfoldable pub better : Option (Matched F) → Option (Matched F) → Option (Matched F)
  better best none = best
  better none (some new) = some new
  better (some old) (some new) = if lt old.confidence new.confidence then some new else some old

  unfoldable pub match_from :
      Str → List Str → Option (Matched F) → List (Intent F) → Option (Option (Matched F))
  match_from text candidate_agents best [] = some best
  match_from text candidate_agents best (intent ∷ rest) =
      elim (candidate text candidate_agents intent) [
        | none ↦ none
        | some new ↦ match_from text candidate_agents (better best new) rest
      ]

  -- `none` is a TypeError.
  unfoldable pub match_intent : Str → List Str → List (Intent F) → Option (Option (Matched F))
  unfolding match_from
  match_intent text candidate_agents intents = match_from text candidate_agents none intents

  -- The module's two globals. A clock reading is in ticks, `second` of them to the second.
  pub record CatalogCache : Type 0 where
    pub cached : Option (List (Intent F))
    pub fetched_monotonic : Option ℕ

  abbrev pub cache_ttl_seconds : ℕ
  cache_ttl_seconds = 60

  -- The first test of `get_active_intents`: what may be served with no query.
  unfoldable pub fresh_entry : ℕ → ℕ → CatalogCache → Option (List (Intent F))
  fresh_entry second now c = elim c.cached [
    | none ↦ none
    | some intents ↦ elim c.fetched_monotonic [
      | none ↦ none
      | some t ↦ if ltb now (t + cache_ttl_seconds * second) then some intents else none
    ]
  ]

  -- `intents or FALLBACK_INTENTS`, and the fallback after a timeout or an error (`none`).
  unfoldable pub or_fallback : Option (List (Intent F)) → List (Intent F)
  or_fallback none = fallback_intents
  or_fallback (some []) = fallback_intents
  or_fallback (some (intent ∷ rest)) = intent ∷ rest

  pub record Lookup : Type 0 where
    pub intents : List (Intent F)
    pub queried : Bool
    pub cache : CatalogCache

  -- `fetched` is what the bounded query would give now; `none` is a timeout or an error.
  unfoldable pub get_active_intents : ℕ → ℕ → Option (List (Intent F)) → CatalogCache → Lookup
  unfolding fresh_entry or_fallback
  get_active_intents second now fetched c = elim (fresh_entry second now c) [
    | some intents ↦ record { intents = intents; queried = false; cache = c }
    | none ↦
        let intents = or_fallback fetched in
        record {
          intents = intents;
          queried = true;
          cache = record { cached = some intents; fetched_monotonic = some now };
        }
  ]
