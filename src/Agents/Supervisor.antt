-- ===== src/Agents/Supervisor.antt =====
-- app/agents/supervisor.py: the choice of the agent. The graph is in `Graph`.
pub mod Routing
pub mod Fallback
use mottainai_ia.Base.{ℕ, Bool, true, false, List, [], ◌∷◌, Option, none, some, if◌then◌else◌}
use mottainai_ia.Base.Floats.{Floats}
use mottainai_ia.Text.Case.{Str, codes, upper, lower}
use mottainai_ia.Text.Search.{str_eq}
use mottainai_ia.Agents.State.{State, RoutingLog, truthy}
use mottainai_ia.Agents.Intents.{Intent, Matched, match_intent}

-- `ROLE_TO_INTENT_AGENTS.get(role)`; a missing role and an empty list are both false.
unfoldable pub role_to_intent_agents : Str → List Str
role_to_intent_agents role =
    if str_eq role (codes "DONO")
    then codes "motor_preditivo" ∷ []
    else if str_eq role (codes "CLIENTE")
    then codes "faq" ∷ []
    else []

-- `ROLE_TO_DEFAULT_AGENT.get(role, "funcionario")`
unfoldable pub role_to_default_agent : Str → Str
role_to_default_agent role =
    if str_eq role (codes "ESTOQUISTA")
    then codes "funcionario"
    else if str_eq role (codes "GERENTE")
    then codes "funcionario"
    else if str_eq role (codes "DONO")
    then codes "dono"
    else if str_eq role (codes "CLIENTE")
    then codes "cliente"
    else codes "funcionario"

module _ (fl : Floats) where
  open fl use {F}

  abbrev routed : State F → Str → Str → Option F → State F
  routed state selected intent_key confidence = record state {
    selected_agent = selected;
    routing_log = some (record {
      selected_intent = intent_key;
      log_agent = selected;
      selected_skill = none;
      confidence = confidence;
    });
  }

  abbrev pub by_default : State F → Str → State F
  by_default state role = routed state (role_to_default_agent role) (codes "default") none

  -- `if matched_agent:` is false for nothing and for an empty name.
  unfoldable pub by_match : State F → Str → Option (Matched F) → State F
  by_match state role none = by_default state role
  by_match state role (some m) =
      if truthy (some m.agent)
      then routed state m.agent m.key (some m.confidence)
      else by_default state role

  -- `none` is the TypeError of `match_intent`, which is not caught.
  abbrev pub by_trial : State F → Str → Option (Option (Matched F)) → Option (State F)
  by_trial state role none = none
  by_trial state role (some matched) = some (by_match state role matched)

  -- `intents` is what `get_active_intents` gives, which is asked only if the role has candidates.
  unfoldable pub node_supervisor_route : List (Intent F) → State F → Option (State F)
  unfolding by_match
  node_supervisor_route intents state =
      let role = upper state.user_role in
      let message = lower state.sanitized_input in
      if truthy state.error then some state else elim (role_to_intent_agents role) [
        | [] ↦ some (by_default state role)
        | agent ∷ agents ↦ by_trial state role (match_intent fl message (agent ∷ agents) intents)
      ]
