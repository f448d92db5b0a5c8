-- ===== src/Agents/Judge/Verdict.antt =====
-- What the judge releases, and what it puts in place of the rest.
use mottainai_ia.Base.{
  ℕ, ◌+◌, ◌≡◌, refl, ◌⊎◌, ◌↔◌, inl, inr, Bool, true, false, ◌||◌, Option, none, some, if◌then◌else◌,
  arith, Bool-cases, Any, [], ◌∷◌,
}
use mottainai_ia.Base.Floats.{Floats}
use mottainai_ia.Text.Case.{Str, codes}
use mottainai_ia.Agents.State.{State, Score}
use mottainai_ia.Agents.Judge.{
  Json, object, boolean, Fields, get_field, Reply, payload, Evaluation, Judged, in_unit, passes,
  as_bool, as_score, validate, checked, parsed, judge_reply, run_judge_evaluation, approves,
  judge_down, out_of_scope, not_grounded, not_confident, refusal, settle, counted, node_agente_juiz,
}

module _ (fl : Floats) (loads : Str → Option (Json fl.F)) where
  open fl use {F}

  -- A reply that vouches for the response: its JSON is an object whose three verdicts are `true` and
  -- whose score is a number from 0 to 1 of at least 0.7.
  pub record Vouches (reply : Reply) : Type 0 where
    pub fields : Fields F
    pub score : Score F
    pub json : loads (payload reply.content) ≡ some (object fields)
    pub approved : get_field (codes "approved") fields ≡ some (boolean true)
    pub scope_ok : get_field (codes "scope_ok") fields ≡ some (boolean true)
    pub grounding_ok : get_field (codes "grounding_ok") fields ≡ some (boolean true)
    pub confidence : as_score fl loads (get_field (codes "confidence_score") fields) ≡ some score
    pub unit : in_unit fl loads score ≡ true
    pub enough : passes fl loads score ≡ true

  as_bool-true : (o : Option (Json F)) → as_bool fl loads o ≡ some true → o ≡ some (boolean true)
  unfolding as_bool
  as_bool-true none e = cc
  as_bool-true (some (boolean b)) e = cc
  as_bool-true (some _) e = cc

  checked-some :
      (a s g : Option Bool) (c : Option (Score F)) (e : Evaluation F)
      → checked fl loads a s g c ≡ some e
      → (a ≡ some e.approved)
        × (s ≡ some e.scope_ok)
        × (g ≡ some e.grounding_ok)
        × (c ≡ some e.score)
        × (in_unit fl loads e.score ≡ true)
  unfolding checked
  checked-some a s g c e h = ground arith

  -- An evaluation that `_approved` accepts comes from a reply that vouches.
  validate-Vouches :
      (reply : Reply) (value : Json F) (e : Evaluation F)
      → loads (payload reply.content) ≡ some value
      → validate fl loads value ≡ some e
      → approves fl loads e ≡ true
      → Vouches reply
  unfolding validate approves
  validate-Vouches reply (object fields) e l v ok =
      let (a, s, g, c, u) = checked-some _ _ _ _ e v in
      record {
        fields = fields;
        score = e.score;
        json = l;
        approved = as_bool-true _ (ground arith);
        scope_ok = as_bool-true _ (ground arith);
        grounding_ok = as_bool-true _ (ground arith);
        confidence = c;
        unit = u;
        enough = ground arith;
      }
  validate-Vouches reply _ e l v ok = cc

  abbrev pub IsVouched : Option Reply → Type 0
  IsVouched none = ⊥
  IsVouched (some reply) = Vouches reply

  parsed_cases :
      (reply : Reply) (o : Option (Json F))
      → loads (payload reply.content) ≡ o
      → (e : Evaluation F) → parsed fl loads reply ≡ some e
      → approves fl loads e ≡ true
      → Vouches reply
  unfolding parsed
  parsed_cases reply none l e p ok = cc
  parsed_cases reply (some value) l e p ok = validate-Vouches reply value e l (ground (arith, l)) ok

  Vouches-parsed :
      (reply : Reply) (v : Vouches reply)
      → parsed fl loads reply
        ≡ some (record { approved = true; score = v.score; grounding_ok = true; scope_ok = true })
  unfolding parsed validate checked as_bool
  Vouches-parsed reply v =
      ground (arith, v.json, v.approved, v.scope_ok, v.grounding_ok, v.confidence, v.unit)

  judge_reply-Vouches :
      (reply : Reply) (o : Option (Evaluation F))
      → parsed fl loads reply ≡ o
      → approves fl loads (judge_reply fl loads reply o).evaluation ≡ true
      → Vouches reply
  unfolding judge_reply approves
  judge_reply-Vouches reply none p ok = cc
  judge_reply-Vouches reply (some e) p ok =
      parsed_cases reply (loads (payload reply.content)) refl e p ok

  -- A single evaluation accepts exactly the replies that vouch.
  accepted :
      (reply : Option Reply)
      → approves fl loads (run_judge_evaluation fl loads reply).evaluation ≡ true
      → IsVouched reply
  unfolding run_judge_evaluation approves
  accepted none ok = cc
  accepted (some reply) ok = judge_reply-Vouches reply (parsed fl loads reply) refl ok

  vouched :
      (reply : Option Reply)
      → IsVouched reply
      → approves fl loads (run_judge_evaluation fl loads reply).evaluation ≡ true
  unfolding run_judge_evaluation approves judge_reply
  vouched none v = absurd v
  vouched (some reply) v = rw (Vouches-parsed reply v, judge_reply) v.enough

  -- What a call of the model costs; a call that raised costs nothing.
  abbrev pub spent_input : Option Reply → ℕ
  spent_input none = 0
  spent_input (some reply) = reply.input_tokens

  abbrev pub spent_output : Option Reply → ℕ
  spent_output none = 0
  spent_output (some reply) = reply.output_tokens

  used_input-eq :
      (reply : Option Reply) → (run_judge_evaluation fl loads reply).used_input ≡ spent_input reply
  unfolding run_judge_evaluation
  used_input-eq none = refl
  used_input-eq (some reply) = ground arith

  used_output-eq :
      (reply : Option Reply)
      → (run_judge_evaluation fl loads reply).used_output ≡ spent_output reply
  unfolding run_judge_evaluation
  used_output-eq none = refl
  used_output-eq (some reply) = ground arith

  module _ (reply second : Option Reply) (state : State F) where
    abbrev pub judged : State F
    judged = node_agente_juiz fl loads reply second state

    -- The counted evaluation of a retry is approved exactly when the retry is.
    approves-counted :
        (first retry : Judged fl loads)
        → approves fl loads first.evaluation ≡ false
        → approves fl loads (counted fl loads first retry).evaluation
          ≡ approves fl loads retry.evaluation
    unfolding counted
    approves-counted first retry no_first = ground arith

    judge_approved-eq : judged.judge_approved ≡ (
        approves fl loads (run_judge_evaluation fl loads reply).evaluation
        || approves fl loads (run_judge_evaluation fl loads second).evaluation)
    unfolding node_agente_juiz settle
    judge_approved-eq = ground (
      arith,
      approves-counted (run_judge_evaluation fl loads reply) (run_judge_evaluation fl loads second),
    )

    -- A response is approved exactly when the first reply of the judge vouches for it or, failing
    -- that, the reply to the one re-evaluation does.
    pub node_agente_juiz-approved_iff :
        (judged.judge_approved ≡ true) ↔ (IsVouched reply ⊎ IsVouched second)
    node_agente_juiz-approved_iff = (forward, backward)
      where
        forward : judged.judge_approved ≡ true → IsVouched reply ⊎ IsVouched second
        forward ok =
            elim (Bool-cases (approves fl loads (run_judge_evaluation fl loads reply).evaluation)) [
              | inl now ↦ inl (accepted reply now)
              | inr later ↦ inr (accepted second (ground (arith, judge_approved-eq)))
            ]

        backward : IsVouched reply ⊎ IsVouched second → judged.judge_approved ≡ true
        backward (inl v) = ground (arith, judge_approved-eq, vouched reply v)
        backward (inr v) = ground (arith, judge_approved-eq, vouched second v)

    refusal_fixed :
        (j : Judged fl loads)
        → Any
            (λ m. refusal fl loads j ≡ m)
            (judge_down fl loads
              ∷ out_of_scope fl loads
              ∷ not_grounded fl loads
              ∷ not_confident fl loads
              ∷ [])
    unfolding refusal
    refusal_fixed j = elim (Bool-cases j.unavailable) [
      | inl down ↦ inl (rw down)
      | inr up ↦ elim (Bool-cases j.evaluation.scope_ok) [
        | inr off ↦ inr (inl (rw (up, off)))
        | inl on ↦ elim (Bool-cases j.evaluation.grounding_ok) [
          | inr loose ↦ inr (inr (inl (rw (up, on, loose))))
          | inl firm ↦ inr (inr (inr (inl (rw (up, on, firm)))))
        ]
      ]
    ]

    settle_response :
        (j : Judged fl loads) (a b : ℕ)
        → ((settle fl loads state j a b).judge_approved ≡ true)
            × ((settle fl loads state j a b).agent_response ≡ state.agent_response)
          ⊎ ((settle fl loads state j a b).judge_approved ≡ false)
            × Any
                (λ m. (settle fl loads state j a b).agent_response ≡ m)
                (judge_down fl loads
                  ∷ out_of_scope fl loads
                  ∷ not_grounded fl loads
                  ∷ not_confident fl loads
                  ∷ [])
    unfolding settle
    settle_response j a b = elim (Bool-cases (approves fl loads j.evaluation)) [
      | inl good ↦ inl (good, rw good)
      | inr bad ↦ inr (bad, rw bad (refusal_fixed j))
    ]

    -- An approved response leaves the judge as the agent wrote it; any other is replaced by one of
    -- the four fixed messages, never by a text of the model.
    pub node_agente_juiz-response :
        (judged.judge_approved ≡ true) × (judged.agent_response ≡ state.agent_response)
        ⊎ (judged.judge_approved ≡ false)
          × Any
              (λ m. judged.agent_response ≡ m)
              (judge_down fl loads
                ∷ out_of_scope fl loads
                ∷ not_grounded fl loads
                ∷ not_confident fl loads
                ∷ [])
    unfolding node_agente_juiz
    node_agente_juiz-response =
        elim (Bool-cases (approves fl loads (run_judge_evaluation fl loads reply).evaluation)) [
          | inl now ↦ rw now (settle_response (run_judge_evaluation fl loads reply) _ _)
          | inr later ↦ rw later (
              settle_response
                (counted fl loads (run_judge_evaluation fl loads reply)
                  (run_judge_evaluation fl loads second))
                _ _)
        ]

    -- Every call of the model that the judge made is counted, and the second is made only if the
    -- first did not approve.
    pub node_agente_juiz-usage :
        (judged.input_tokens
          ≡ state.input_tokens
            + (if approves fl loads (run_judge_evaluation fl loads reply).evaluation
                then spent_input reply
                else spent_input reply + spent_input second))
        × (judged.output_tokens
            ≡ state.output_tokens
              + (if approves fl loads (run_judge_evaluation fl loads reply).evaluation
                  then spent_output reply
                  else spent_output reply + spent_output second))
    unfolding node_agente_juiz settle counted
    node_agente_juiz-usage = (
      ground (arith, used_input-eq reply, used_input-eq second),
      ground (arith, used_output-eq reply, used_output-eq second),
    )
