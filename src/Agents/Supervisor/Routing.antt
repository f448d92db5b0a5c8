-- ===== src/Agents/Supervisor/Routing.antt =====
-- Which agents a role can reach, whatever the catalog holds and whatever the message says.
use mottainai_ia.Base.{
  ◌≡◌, refl, sym, ap, ◌∙◌, subst, none-not-some, some_inj, inl, inr, true, false, List, [], ◌∷◌,
  Option, none, some, arith, if◌then◌else◌, Bool-cases,
}
use mottainai_ia.Base.Floats.{Floats}
use mottainai_ia.Text.Case.{Str, codes, upper, lower}
use mottainai_ia.Text.Search.{str_eq, str_eq_iff, str_mem}
use mottainai_ia.Agents.State.{State, truthy}
use mottainai_ia.Agents.Intents.{Intent, Matched}
use mottainai_ia.Agents.Intents.Match.{match_intent-may_route}
use mottainai_ia.Agents.Supervisor.{
  role_to_intent_agents, role_to_default_agent, by_trial, by_match, node_supervisor_route,
}

-- The authorization boundary: the agents that a role may talk to.
abbrev pub allowed_agents : Str → List Str
allowed_agents role =
    if str_eq role (codes "CLIENTE")
    then codes "cliente" ∷ codes "faq" ∷ []
    else if str_eq role (codes "DONO")
    then codes "dono" ∷ codes "motor_preditivo" ∷ []
    else codes "funcionario" ∷ []

module _ (role : Str) (no_customer : str_eq role (codes "CLIENTE") ≡ false)
    (no_owner : str_eq role (codes "DONO") ≡ false) where
  default_other : role_to_default_agent role ≡ codes "funcionario"
  unfolding role_to_default_agent
  default_other = ground arith

  candidates_other : role_to_intent_agents role ≡ []
  unfolding role_to_intent_agents
  candidates_other = ground arith

  allowed_other : allowed_agents role ≡ codes "funcionario" ∷ []
  allowed_other = ground arith

first_mem :
    str_mem (role_to_default_agent (codes "CLIENTE")) (allowed_agents (codes "CLIENTE")) ≡ true
unfolding role_to_default_agent str_mem
first_mem = refl

first_owner : str_mem (role_to_default_agent (codes "DONO")) (allowed_agents (codes "DONO")) ≡ true
unfolding role_to_default_agent str_mem
first_owner = refl

first_employee : str_mem (codes "funcionario") (codes "funcionario" ∷ []) ≡ true
unfolding str_mem
first_employee = refl

last_mem : (a b c : Str) → str_mem a (c ∷ []) ≡ true → str_mem a (b ∷ c ∷ []) ≡ true
unfolding str_mem
last_mem a b c h = elim (Bool-cases (str_eq a b)) [ inl e ↦ rw (e, str_mem) | inr n ↦ ground arith ]

module _ (fl : Floats) where
  open fl use {F}

  -- The agent of a match is a candidate, or the default.
  by_match-agent :
      (state : State F) (role : Str) (allowed : List Str) (o : Option (Matched F))
      → str_mem (role_to_default_agent role) allowed ≡ true
      → ((m : Matched F) → o ≡ some m → str_mem m.agent allowed ≡ true)
      → str_mem (by_match fl state role o).selected_agent allowed ≡ true
  unfolding by_match
  by_match-agent state role allowed none d h = d
  by_match-agent state role allowed (some m) d h = elim (Bool-cases (truthy (some m.agent))) [
    | inl named ↦ rw named (h m refl)
    | inr empty ↦ rw empty d
  ]

  by_trial-agent :
      (state st : State F) (role : Str) (allowed : List Str) (o : Option (Option (Matched F)))
      → by_trial fl state role o ≡ some st
      → str_mem (role_to_default_agent role) allowed ≡ true
      → ((m : Matched F) → o ≡ some (some m) → str_mem m.agent allowed ≡ true)
      → str_mem st.selected_agent allowed ≡ true
  by_trial-agent state st role allowed none e d h = absurd (none-not-some e)
  by_trial-agent state st role allowed (some o) e d h =
      subst (λ (z : State F). str_mem z.selected_agent allowed ≡ true) (some_inj.0 e)
        (by_match-agent state role allowed o d (λ m k. h m (ap some k)))

  module _ (intents : List (Intent F)) (state st : State F) (go_on : truthy state.error ≡ false)
      (routes : node_supervisor_route fl intents state ≡ some st) where
    abbrev role : Str
    role = upper state.user_role

    abbrev message : Str
    message = lower state.sanitized_input

    customer :
        role ≡ codes "CLIENTE" → str_mem st.selected_agent (allowed_agents (codes "CLIENTE")) ≡ true
    unfolding node_supervisor_route role_to_intent_agents str_eq
    customer e =
        by_trial-agent state st role (allowed_agents (codes "CLIENTE")) _
          (rw (go_on, e, node_supervisor_route) at routes) (rw e first_mem)
          (λ m k. last_mem _ _ _ (match_intent-may_route fl message (codes "faq" ∷ []) intents m k))

    owner : role ≡ codes "DONO" → str_mem st.selected_agent (allowed_agents (codes "DONO")) ≡ true
    unfolding node_supervisor_route role_to_intent_agents str_eq
    owner e =
        by_trial-agent state st role (allowed_agents (codes "DONO")) _
          (rw (go_on, e, node_supervisor_route) at routes) (rw e first_owner)
          (λ m k.
            last_mem _ _ _
              (match_intent-may_route fl message (codes "motor_preditivo" ∷ []) intents m k))

    employee :
        str_eq role (codes "CLIENTE") ≡ false
        → str_eq role (codes "DONO") ≡ false
        → st.selected_agent ≡ codes "funcionario"
    unfolding node_supervisor_route
    employee c o =
        let h = rw (go_on, candidates_other role c o, node_supervisor_route) at routes in
        ap (λ (z : State F). z.selected_agent) (sym (some_inj.0 h)) ∙ default_other role c o

    -- Whatever the catalog holds and the message says, the supervisor selects an agent that the role
    -- of the user may reach, if it does not raise: CLIENTE gets the customer agent or the FAQ, DONO the
    -- owner agent or the predictive engine, and every other role the employee agent.
    pub node_supervisor_route-allowed : str_mem st.selected_agent (allowed_agents role) ≡ true
    node_supervisor_route-allowed = elim (Bool-cases (str_eq role (codes "CLIENTE"))) [
      | inl c ↦
          let e = (str_eq_iff role (codes "CLIENTE")).0 c in
          subst (λ (r : Str). str_mem st.selected_agent (allowed_agents r) ≡ true) (sym e)
            (customer e)
      | inr no_c ↦ elim (Bool-cases (str_eq role (codes "DONO"))) [
        | inl o ↦
            let e = (str_eq_iff role (codes "DONO")).0 o in
            subst (λ (r : Str). str_mem st.selected_agent (allowed_agents r) ≡ true) (sym e)
              (owner e)
        | inr no_o ↦ rw (employee no_c no_o, allowed_other role no_c no_o) first_employee
      ]
    ]
