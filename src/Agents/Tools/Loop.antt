-- ===== src/Agents/Tools/Loop.antt =====
-- What the loop of tool calls has done when it answers.
use mottainai_ia.Base.{
  ℕ, zero, suc, ◌+◌, ◌<◌, ◌≡◌, refl, ap, subst, ◌⊎◌, inl, inr, true, false, List, [], ◌∷◌, ◌++◌,
  map, arith, Bool-cases,
}
use mottainai_ia.Text.Case.{Str}
use mottainai_ia.Agents.Tools.{
  ToolCall, Usage, AiMessage, Entry, given, model, tool, Tool, no_usage, add_usage, with_usage,
  tool_messages, Run, is_direct, counted, loop, run_agent_with_tools,
}

-- The identifiers that tool messages answer.
abbrev pub answered_id : Entry → List Str
answered_id (given s) = []
answered_id (model m) = []
answered_id (tool content id) = id ∷ []

abbrev pub answered_ids : List Entry → List Str
answered_ids [] = []
answered_ids (e ∷ es) = answered_id e ++ answered_ids es

abbrev pub call_ids : List ToolCall → List Str
call_ids calls = map (λ c. c.id) calls

answered_ids-tool_messages :
    (tools : List Tool) (calls : List ToolCall)
    → answered_ids (tool_messages tools calls) ≡ call_ids calls
unfolding tool_messages
answered_ids-tool_messages tools [] = refl
answered_ids-tool_messages tools (c ∷ cs) =
    ap (λ ids. c.id ∷ ids) (answered_ids-tool_messages tools cs)

module _ (tools : List Tool) (bound plain : List Entry → AiMessage) where
  -- Rounds of tool calls: each is a response of the model to the conversation so far that asks for
  -- tools, followed by one tool message per call, in the order of the calls. The last index is what
  -- the responses used.
  pub data Rounds (start : List Entry) : List Entry → ℕ → Usage → Type 0 where
    no_round : Rounds start start 0 no_usage
    one_more :
        {c : List Entry} {n : ℕ} {total : Usage}
        → Rounds start c n total
        → (replies : List Entry) → is_direct (bound c) ≡ false
        → answered_ids replies ≡ call_ids (bound c).tool_calls
        → Rounds start (c ++ (model (bound c) ∷ replies)) (suc n) (add_usage total (bound c).usage)

  -- How a run of at most `max` rounds has ended: with the first response that asks for no tool, or
  -- after `max` rounds with a response of the model without tools.
  pub record Completed (start : List Entry) (max : ℕ) (before : ℕ) (r : Run) : Type 0 where
    pub rounds : ℕ
    pub total : Usage
    pub last : AiMessage
    pub made : Rounds start r.conversation rounds total
    pub answer_is_last : r.answer ≡ with_usage (add_usage total last.usage) last
    pub ending :
        (r.forced ≡ false)
          × (last ≡ bound r.conversation)
          × (is_direct last ≡ true)
          × (r.bound_calls + before ≡ suc rounds)
          × (rounds < max)
        ⊎ (r.forced ≡ true)
          × (last ≡ plain r.conversation)
          × (r.bound_calls + before ≡ rounds)
          × (rounds ≡ max)

  counted-Completed :
      (start : List Entry) (max before : ℕ) (r : Run)
      → Completed start max (suc before) r
      → Completed start max before (counted tools bound plain r)
  counted-Completed start max before r h = record {
    rounds = h.rounds;
    total = h.total;
    last = h.last;
    made = h.made;
    answer_is_last = h.answer_is_last;
    ending = elim h.ending [
      | inl (f, l, d, calls, few) ↦ inl (f, l, d, omega (arith, calls), few)
      | inr (f, l, calls, all_used) ↦ inr (f, l, omega (arith, calls), all_used)
    ];
  }

  loop-Completed :
      (start : List Entry) (n before : ℕ) (total : Usage) (c : List Entry)
      → Rounds start c before total
      → Completed start (before + n) before (loop tools bound plain n total c)
  unfolding loop
  loop-Completed start zero before total c made = record {
    rounds = before;
    total = total;
    last = plain c;
    made = made;
    answer_is_last = refl;
    ending = inr (refl, refl, omega arith, omega arith);
  }
  loop-Completed start (suc n) before total c made = elim (Bool-cases (is_direct (bound c))) [
    | inl direct ↦
        rw (direct, loop)
          (record {
            rounds = before;
            total = total;
            last = bound c;
            made = made;
            answer_is_last = refl;
            ending = inl (refl, refl, direct, omega arith, omega arith);
          })
    | inr asks ↦
        let more =
          one_more made (tool_messages tools (bound c).tool_calls) asks
            (answered_ids-tool_messages tools (bound c).tool_calls) in
        let shift : suc before + n ≡ before + suc n = omega arith in
        rw (asks, loop)
          (counted-Completed start (before + suc n) before
            (loop tools bound plain n (add_usage total (bound c).usage)
              (c ++ (model (bound c) ∷ tool_messages tools (bound c).tool_calls)))
            (subst
              (λ max. Completed start max (suc before) (
                loop tools bound plain n (add_usage total (bound c).usage)
                  (c ++ (model (bound c) ∷ tool_messages tools (bound c).tool_calls))))
              shift
              (loop-Completed start n (suc before) (add_usage total (bound c).usage)
                (c ++ (model (bound c) ∷ tool_messages tools (bound c).tool_calls)) more)))
  ]

  -- The loop always answers, after at most the given number of rounds. In each round every tool call
  -- of the model is answered, in order and under its identifier, whether its tool works, raises or
  -- does not exist; the answer is the first response that asks for no tool, or else the response of
  -- the model without tools; and its usage is the sum over all responses of the run.
  pub run_agent_with_tools-Completed :
      (max : ℕ) (messages : List Entry)
      → Completed messages max 0 (run_agent_with_tools tools bound plain max messages)
  unfolding run_agent_with_tools
  run_agent_with_tools-Completed max messages =
      let same : 0 + max ≡ max = omega arith in
      subst (λ n. Completed messages n 0 (loop tools bound plain max no_usage messages)) same
        (loop-Completed messages max 0 no_usage messages no_round)
