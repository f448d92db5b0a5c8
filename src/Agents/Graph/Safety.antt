-- ===== src/Agents/Graph/Safety.antt =====
-- The promises of a whole run of the graph.
use mottainai_ia.Base.{
  ◌≡◌, sym, ap, ◌∙◌, subst, ◌⊎◌, inl, inr, Bool, true, false, Option, some, arith, Any,
}
use mottainai_ia.Base.Floats.{Floats}
use mottainai_ia.Text.Case.{Str, upper}
use mottainai_ia.Text.Search.{str_mem}
use mottainai_ia.Cache.SortedSets.{SortedSets}
use mottainai_ia.Memory.History.{Cursor}
use mottainai_ia.Agents.State.{State, truthy}
use mottainai_ia.Agents.Judge.{Json}
use mottainai_ia.Agents.Judge.Verdict.{
  IsVouched, node_agente_juiz-response, node_agente_juiz-approved_iff,
}
use mottainai_ia.Agents.Supervisor.Routing.{allowed_agents, node_supervisor_route-allowed}
use mottainai_ia.Agents.Graph.{
  done, Answer, Databases, Request, answered, unavailable_output, node_guardrail_entrada, run_graph,
}
use mottainai_ia.Agents.Graph.Stages.{Passed, ran}
use mottainai_ia.Agents.Graph.Released.{
  Shown, Shown-of, final_text, final_text_cases, Filtered, refusals, refusals_shown,
}

-- An error flag is not both set and clear.
true-not-false : {b : Bool} → b ≡ true → b ≡ false → ⊥
true-not-false h g = cc

module _ (fl : Floats) (loads : Str → Option (Json fl.F)) (redis : SortedSets) (cursor : Cursor)
    (agent : Str → State fl.F → Option Answer) (request : Request fl redis cursor loads agent)
    (state st : State fl.F) (s : redis.Store) (db : Databases)
    (ends : (run_graph fl redis cursor loads agent request state s db).0 ≡ done st) where
  open fl use {F}

  admitted : State F
  admitted = (node_guardrail_entrada fl redis request.settings request.call state s).0

  passed_of :
      truthy st.error ≡ false
      → (truthy admitted.error ≡ false) × Passed fl redis cursor loads agent request admitted st
  unfolding admitted
  passed_of no_error = elim (ran fl redis cursor loads agent request state st s db ends) [
    | inl (stopped, same, _) ↦
        absurd (true-not-false stopped (ap (λ z. truthy z.error) (sym same) ∙ no_error))
    | inr passed ↦ passed
  ]

  shown :
      (p : truthy st.error ≡ false)
      → Shown fl loads redis cursor agent request (passed_of p).1.routed st (passed_of p).1.answer
  shown p =
      let passed = (passed_of p).1 in
      Shown-of fl loads redis cursor agent request passed.routed st passed.answer passed.db
        (ap truthy passed.same.same_error ∙ (passed_of p).0) passed.finished

  -- What an agent wrote is never shown to the user unless the judge approved it: after a rejection,
  -- or when the judge cannot be reached, the run ends with one of the judge's four messages.
  pub run_graph-unapproved :
      truthy st.error ≡ false
      → st.judge_approved ≡ false
      → Any (λ m. st.final_response ≡ m) (refusals fl loads)
  run_graph-unapproved no_error no_approval =
      let view = shown no_error in
      let passed = (passed_of no_error).1 in
      elim (node_agente_juiz-response fl loads request.reply request.second
        (answered fl passed.answer passed.routed)) [
          | inl (good, _) ↦ absurd (
              true-not-false good
                (ap (λ z. z.judge_approved) (sym view.is_judged) ∙ sym view.approval ∙ no_approval))
          | inr (_, fixed) ↦
              subst (λ z. Any (λ m. z ≡ m) (refusals fl loads))
                (sym (view.final ∙ ap (λ z. final_text z.agent_response) view.is_judged))
                (refusals_shown fl loads _ fixed)
        ]

  -- What is shown with the judge's approval is what the chosen agent wrote with the personal data
  -- replaced, without internal words and of at most 8192 characters, or the fixed message of the
  -- output guardrail; and one of the judge's two replies vouched for it.
  pub run_graph-approved :
      truthy st.error ≡ false
      → st.judge_approved ≡ true
      → (IsVouched fl loads request.reply ⊎ IsVouched fl loads request.second)
        × ((st.final_response ≡ unavailable_output)
            ⊎ (routed : State F) × (answer : Answer) × (agent st.selected_agent routed
                ≡ some answer)
              × Filtered answer.agent_response st.final_response)
  unfolding answered
  run_graph-approved no_error approval =
      let view = shown no_error in
      let passed = (passed_of no_error).1 in
      let good = ap (λ z. z.judge_approved) (sym view.is_judged) ∙ sym view.approval ∙ approval in
      elim (node_agente_juiz-response fl loads request.reply request.second
        (answered fl passed.answer passed.routed)) [
          | inr (bad, _) ↦ absurd (true-not-false good bad)
          | inl (_, same) ↦
              let final =
                view.final
                ∙ ap (λ z. final_text z.agent_response) view.is_judged
                ∙ ap final_text same in
              (
                (node_agente_juiz-approved_iff fl loads request.reply request.second
                      (answered fl passed.answer passed.routed)).0
                    good,
                elim (final_text_cases passed.answer.agent_response) [
                  | inl hidden ↦ inl (final ∙ hidden)
                  | inr clean ↦ inr (
                    passed.routed,
                    passed.answer,
                    subst (λ z. agent z passed.routed ≡ some passed.answer) (sym view.agent_kept)
                        passed.answer_of,
                    subst (Filtered passed.answer.agent_response) (sym final) clean,
                  )
                ],
              )
        ]

  admitted-role : admitted.user_role ≡ state.user_role
  unfolding admitted node_guardrail_entrada
  admitted-role = ground arith

  -- The agent that answers a user is one that the user's role may reach, whatever the message, the
  -- catalog of intents and the history.
  pub run_graph-allowed :
      truthy st.error ≡ false
      → str_mem st.selected_agent (allowed_agents (upper state.user_role)) ≡ true
  run_graph-allowed no_error =
      let (clear, passed) = passed_of no_error in
      let same = passed.same_before in
      let allowed =
        node_supervisor_route-allowed fl request.intents passed.before passed.routed
          (ap truthy same.same_error ∙ clear) passed.route in
      let chosen = (shown no_error).agent_kept in
      let role = same.same_role ∙ admitted-role in
      subst (λ z. str_mem z (allowed_agents (upper state.user_role)) ≡ true) (sym chosen)
        (subst (λ z. str_mem passed.routed.selected_agent (allowed_agents (upper z)) ≡ true) role
          allowed)
