-- ===== src/Agents/Graph/Released.antt =====
-- What a user can be shown at the end of a run of the graph.
use mottainai_ia.Base.{
  ◌≡◌, ◌≤◌, refl, ap, ◌∙◌, ◌⊎◌, inl, inr, false, List, [], ◌∷◌, Option, if◌then◌else◌, arith, Any,
  length,
}
use mottainai_ia.Base.Floats.{Floats}
use mottainai_ia.Text.Case.{Str, lower_code}
use mottainai_ia.Text.Regex.{found, same_letter}
use mottainai_ia.Cache.SortedSets.{SortedSets}
use mottainai_ia.Memory.History.{Cursor}
use mottainai_ia.Guardrails.Saida.{
  guardrail_saida, is_local, internal_leak_patterns, max_response_len,
}
use mottainai_ia.Guardrails.Saida.Released.{without_pii, guardrail_saida_cases}
use mottainai_ia.Agents.State.{State, truthy}
use mottainai_ia.Agents.Judge.{
  Json, judge_down, out_of_scope, not_grounded, not_confident, node_agente_juiz, settle,
}
use mottainai_ia.Agents.Graph.{
  Answer, Databases, Request, answered, unavailable_output, node_guardrail_saida,
  judged_and_filtered,
}

-- What the output guardrail makes of a text.
abbrev pub final_text : Str → Str
final_text response =
    if (guardrail_saida response).safe
    then (guardrail_saida response).output
    else unavailable_output

-- A text that the output guardrail lets through is the agent's with the personal data replaced, and
-- neither leaks nor is too long.
abbrev pub Filtered : Str → Str → Type 0
Filtered response final =
    (final ≡ without_pii response)
    × (found internal_leak_patterns final ≡ false)
    × (length final ≤ max_response_len)

pub final_text_cases :
    (response : Str)
    → (final_text response ≡ unavailable_output) ⊎ Filtered response (final_text response)
final_text_cases response = elim (guardrail_saida_cases response) [
  | inl (safe, same, no_leak, short) ↦ inr (rw safe (same, no_leak, short))
  | inr (unsafe, _) ↦ inl (rw unsafe refl)
]

module _ (fl : Floats) (loads : Str → Option (Json fl.F)) where
  open fl use {F}

  shown-judge_down : final_text (judge_down fl loads) ≡ judge_down fl loads
  unfolding guardrail_saida found is_local lower_code same_letter
  shown-judge_down = refl

  shown-out_of_scope : final_text (out_of_scope fl loads) ≡ out_of_scope fl loads
  unfolding guardrail_saida found is_local lower_code same_letter
  shown-out_of_scope = refl

  shown-not_grounded : final_text (not_grounded fl loads) ≡ not_grounded fl loads
  unfolding guardrail_saida found is_local lower_code same_letter
  shown-not_grounded = refl

  shown-not_confident : final_text (not_confident fl loads) ≡ not_confident fl loads
  unfolding guardrail_saida found is_local lower_code same_letter
  shown-not_confident = refl

  -- The four messages that the judge puts in place of a response.
  abbrev pub refusals : List Str
  refusals =
      judge_down fl loads
      ∷ out_of_scope fl loads
      ∷ not_grounded fl loads
      ∷ not_confident fl loads
      ∷ []

  pub refusals_shown :
      (response : Str)
      → Any (λ m. response ≡ m) refusals
      → Any (λ m. final_text response ≡ m) refusals
  refusals_shown response (inl e) = inl (ap final_text e ∙ shown-judge_down)
  refusals_shown response (inr (inl e)) = inr (inl (ap final_text e ∙ shown-out_of_scope))
  refusals_shown response (inr (inr (inl e))) =
      inr (inr (inl (ap final_text e ∙ shown-not_grounded)))
  refusals_shown response (inr (inr (inr (inl e)))) =
      inr (inr (inr (inl (ap final_text e ∙ shown-not_confident))))
  refusals_shown response (inr (inr (inr (inr e)))) = elim e [ ]

  module _ (redis : SortedSets) (cursor : Cursor) (agent : Str → State F → Option Answer)
      (request : Request fl redis cursor loads agent) where
    abbrev pub judge : State F → State F
    judge state = node_agente_juiz fl loads request.reply request.second state

    saida_final :
        (state : State F) (db : Databases)
        → truthy (judge state).error ≡ false
        → ((judged_and_filtered fl redis cursor loads agent request state db).0.final_response
            ≡ final_text (judge state).agent_response)
          × ((judged_and_filtered fl redis cursor loads agent request state db).0.judge_approved
              ≡ (judge state).judge_approved)
          × ((judged_and_filtered fl redis cursor loads agent request state db).0.selected_agent
              ≡ (judge state).selected_agent)
          × ((judged_and_filtered fl redis cursor loads agent request state db).0.error
              ≡ (judge state).error)
    unfolding judged_and_filtered node_guardrail_saida
    saida_final state db no_error =
        rw (no_error, judged_and_filtered, node_guardrail_saida) (refl, refl, refl, refl)

    judge_keeps :
        (state : State F)
        → ((judge state).error ≡ state.error)
          × ((judge state).selected_agent ≡ state.selected_agent)
    unfolding node_agente_juiz settle
    judge_keeps state = (ground arith, ground arith)

    -- What the last two nodes make of a routed state with an answer.
    pub record Shown (routed st : State F) (answer : Answer) : Type 0 where
      pub judged : State F
      pub is_judged : judged ≡ judge (answered fl answer routed)
      pub final : st.final_response ≡ final_text judged.agent_response
      pub approval : st.judge_approved ≡ judged.judge_approved
      pub error_kept : st.error ≡ routed.error
      pub agent_kept : st.selected_agent ≡ routed.selected_agent

    pub Shown-of :
        (routed st : State F) (answer : Answer) (db : Databases)
        → truthy routed.error ≡ false
        → st
          ≡ (judged_and_filtered fl redis cursor loads agent request
              (answered fl answer routed)
              db).0
        → Shown routed st answer
    unfolding answered
    Shown-of routed st answer db no_error e =
        let (kept_error, kept_agent) = judge_keeps (answered fl answer routed) in
        let (f, a, g, w) =
          saida_final (answered fl answer routed) db (ap truthy kept_error ∙ no_error) in
        record {
          judged = judge (answered fl answer routed);
          is_judged = refl;
          final = ap (λ z. z.final_response) e ∙ f;
          approval = ap (λ z. z.judge_approved) e ∙ a;
          error_kept = ap (λ z. z.error) e ∙ w ∙ kept_error;
          agent_kept = ap (λ z. z.selected_agent) e ∙ g ∙ kept_agent;
        }
