-- ===== src/Agents/Supervisor/Fallback.antt =====
-- With the built-in catalog the choice is a keyword search, as it was before the catalog.
use mottainai_ia.Base.{
  ℕ, ◌≡◌, refl, ◌∙◌, Bool, true, false, List, [], ◌∷◌, Option, none, some, arith, if◌then◌else◌,
  any, count, length, ◌==◌,
}
use mottainai_ia.Base.Floats.{Floats}
use mottainai_ia.Text.Case.{Str, codes, upper, lower}
use mottainai_ia.Text.Search.{str_eq, str_mem, str_contains}
use mottainai_ia.Agents.State.{State, truthy}
use mottainai_ia.Agents.Intents.{
  Intent, match_intent, candidate, better, matches_in, fallback_intents, forecast_intent,
  faq_intent, faq_examples, forecast_examples,
}
use mottainai_ia.Agents.Supervisor.{
  role_to_intent_agents, role_to_default_agent, by_match, node_supervisor_route,
}

-- `any(kw in text for kw in KEYWORDS)`
abbrev pub mentions : List Str → Str → Bool
mentions keywords text = any (λ kw. str_contains kw text) keywords

count-any {ℓ} :
    {A : Type ℓ} (p : A → Bool) (xs : List A)
    → (count p xs == 0) ≡ (if any p xs then false else true)
count-any p [] = refl
count-any p (x ∷ xs) = ground (arith, count-any p xs)

module _ (fl : Floats) (nonneg : (m n : ℕ) → fl.lt (fl.ratio m n) fl.zero_point ≡ false) where
  open fl use {F, ratio, zero_point}

  -- The agent that is selected, unless the node raises.
  abbrev pub selected : Option (State F) → Option Str
  selected none = none
  selected (some st) = some st.selected_agent

  -- An intent with no threshold to speak of is a keyword search.
  keyword_candidate :
      (text key agent : Str) (agents : List Str) (x : Str) (xs : List Str)
      → str_mem agent agents ≡ true
      → candidate fl text agents (record {
        key = key;
        agent = some agent;
        examples = some (x ∷ xs);
        confidence_threshold = some (some zero_point);
      })
        ≡ some (
            if mentions (x ∷ xs) text
            then some (record {
              key = key;
              agent = agent;
              confidence = ratio (matches_in fl text (x ∷ xs)) (length (x ∷ xs));
            })
            else none)
  unfolding candidate
  keyword_candidate text key agent agents x xs m = ground (
    arith,
    count-any (λ example. str_contains example text) (x ∷ xs),
    nonneg (matches_in fl text (x ∷ xs)) (length (x ∷ xs)),
  )

  other_candidate :
      (text : Str) (agents : List Str) (i : Intent F) (agent : Str)
      → i.agent ≡ some agent
      → str_mem agent agents ≡ false
      → candidate fl text agents i ≡ some none
  unfolding candidate
  other_candidate text agents i agent e m = ground arith

  faq_only : (text : Str) → candidate fl text (codes "faq" ∷ []) (forecast_intent fl) ≡ some none
  unfolding str_mem
  faq_only text = other_candidate text _ (forecast_intent fl) (codes "motor_preditivo") refl refl

  forecast_only :
      (text : Str) → candidate fl text (codes "motor_preditivo" ∷ []) (faq_intent fl) ≡ some none
  unfolding str_mem
  forecast_only text = other_candidate text _ (faq_intent fl) (codes "faq") refl refl

  -- What the loop keeps of two intents, one of which is skipped.
  match_second :
      (text : Str) (agents : List Str) (i j : Intent F)
      → candidate fl text agents i ≡ some none
      → match_intent fl text agents (i ∷ j ∷ []) ≡ candidate fl text agents j
  unfolding match_intent better
  match_second text agents i j e = ground arith

  match_first :
      (text : Str) (agents : List Str) (i j : Intent F)
      → candidate fl text agents j ≡ some none
      → match_intent fl text agents (i ∷ j ∷ []) ≡ candidate fl text agents i
  unfolding match_intent better
  match_first text agents i j e = ground arith

  module _ (state : State F) (go_on : truthy state.error ≡ false) where
    abbrev pub message : Str
    message = lower state.sanitized_input

    -- A customer whose message holds one of the FAQ keywords is sent to the FAQ, and any other
    -- customer to the customer agent.
    pub fallback-customer :
        upper state.user_role ≡ codes "CLIENTE"
        → selected (node_supervisor_route fl (fallback_intents fl) state)
          ≡ some (if mentions faq_examples message then codes "faq" else codes "cliente")
    unfolding node_supervisor_route role_to_intent_agents role_to_default_agent str_eq str_mem
    fallback-customer e =
        let kept =
          match_second message (codes "faq" ∷ []) (forecast_intent fl) (faq_intent fl)
            (faq_only message)
          ∙ keyword_candidate message (codes "cliente_faq") (codes "faq") (codes "faq" ∷ []) _ _
              refl in
        chosen (mentions faq_examples message) refl kept
      where
        chosen :
            (b : Bool)
            → mentions faq_examples message ≡ b
            → match_intent fl message (codes "faq" ∷ []) (fallback_intents fl)
              ≡ some (
                  if b
                  then some (record {
                    key = codes "cliente_faq";
                    agent = codes "faq";
                    confidence = ratio (matches_in fl message faq_examples) (length faq_examples);
                  })
                  else none)
            → selected (node_supervisor_route fl (fallback_intents fl) state)
              ≡ some (if b then codes "faq" else codes "cliente")
        chosen true m k = rw (go_on, e, k, node_supervisor_route, by_match)
        chosen false m k = rw (go_on, e, k, node_supervisor_route, by_match) (rw e)

    -- An owner whose message holds one of the forecast keywords is sent to the predictive engine, and
    -- any other owner to the owner agent.
    pub fallback-owner :
        upper state.user_role ≡ codes "DONO"
        → selected (node_supervisor_route fl (fallback_intents fl) state)
          ≡ some
              (if mentions forecast_examples message then codes "motor_preditivo" else codes "dono")
    unfolding node_supervisor_route role_to_intent_agents role_to_default_agent str_eq str_mem
    fallback-owner e =
        let kept =
          match_first message (codes "motor_preditivo" ∷ []) (forecast_intent fl) (faq_intent fl)
            (forecast_only message)
          ∙ keyword_candidate message (codes "motor_preditivo_forecast") (codes "motor_preditivo")
              (codes "motor_preditivo" ∷ []) _ _ refl in
        chosen (mentions forecast_examples message) refl kept
      where
        chosen :
            (b : Bool)
            → mentions forecast_examples message ≡ b
            → match_intent fl message (codes "motor_preditivo" ∷ []) (fallback_intents fl)
              ≡ some (
                  if b
                  then some (record {
                    key = codes "motor_preditivo_forecast";
                    agent = codes "motor_preditivo";
                    confidence =
                        ratio (matches_in fl message forecast_examples) (length forecast_examples);
                  })
                  else none)
            → selected (node_supervisor_route fl (fallback_intents fl) state)
              ≡ some (if b then codes "motor_preditivo" else codes "dono")
        chosen true m k = rw (go_on, e, k, node_supervisor_route, by_match)
        chosen false m k = rw (go_on, e, k, node_supervisor_route, by_match) (rw e)
