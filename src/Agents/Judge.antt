-- ===== src/Agents/Judge.antt =====
-- app/agents/juiz.py: the judge, which fails closed. The model's replies and `json.loads` are
-- arguments; the text of the prompt and the stored evaluation document are left out.
pub mod Verdict
use mottainai_ia.Base.{
  ℕ, zero, suc, ◌+◌, ◌≡◌, Bool, true, false, not, ◌&&◌, ◌||◌, List, [], ◌∷◌, ◌++◌, Option, none,
  some, if◌then◌else◌, drop,
}
use mottainai_ia.Base.Int.{ℤ, pos, leb_ℤ}
use mottainai_ia.Base.Floats.{Floats}
use mottainai_ia.Text.Case.{Str, codes, strip}
use mottainai_ia.Text.Search.{str_eq, starts_with}
use mottainai_ia.Agents.State.{State, Score, whole, float}

mutual
  pub data Json (F : Type 0) : Type 0 where
    null : Json F
    boolean : Bool → Json F
    integer : ℤ → Json F
    number : F → Json F
    string : Str → Json F
    array : Items F → Json F
    object : Fields F → Json F

  pub data Items (F : Type 0) : Type 0 where
    nil : Items F
    cons : Json F → Items F → Items F

  pub data Fields (F : Type 0) : Type 0 where
    end : Fields F
    field : Str → Json F → Fields F → Fields F

-- `evaluation.get(name)`; an object that `json.loads` returns has each key once.
unfoldable pub get_field : {F : Type 0} → Str → Fields F → Option (Json F)
get_field name end = none
get_field name (field key value rest) = if str_eq key name then some value else get_field name rest

-- What `ainvoke` returns: the content and the two counts of `usage_metadata`.
pub record Reply : Type 0 where
  pub content : Str
  pub input_tokens : ℕ
  pub output_tokens : ℕ

abbrev fence : Str
fence = codes "```"

-- The text up to the next fence, which `split("```")` cuts off.
unfoldable pub until_fence : Str → Str
until_fence [] = []
until_fence (c ∷ s) = let rest = until_fence s in if starts_with (c ∷ s) fence then [] else c ∷ rest

-- The JSON text of a reply, with a code block around it taken off.
unfoldable pub payload : Str → Str
unfolding until_fence
payload content =
    let raw = strip content in
    if starts_with raw fence
    then (let inner = until_fence (drop 3 raw) in
        strip (if starts_with inner (codes "json") then drop 4 inner else inner))
    else strip raw

-- A validated evaluation. `issues` goes into the stored document only.
pub record Evaluation (F : Type 0) : Type 0 where
  pub approved : Bool
  pub score : Score F
  pub grounding_ok : Bool
  pub scope_ok : Bool

module _ (fl : Floats) (loads : Str → Option (Json fl.F)) where
  open fl use {F, le, zero_point, one_point, seven_tenths}

  -- `0 <= score <= 1` and `score >= 0.7`, of an integer and of a float.
  unfoldable pub in_unit : Score F → Bool
  in_unit (whole n) = leb_ℤ (pos 0) n && leb_ℤ n (pos 1)
  in_unit (float x) = le zero_point x && le x one_point

  unfoldable pub passes : Score F → Bool
  passes (whole n) = leb_ℤ (pos 1) n
  passes (float x) = le seven_tenths x

  -- `type(value) is bool`, `type(score) in (int, float)`
  unfoldable pub as_bool : Option (Json F) → Option Bool
  as_bool none = none
  as_bool (some (boolean b)) = some b
  as_bool (some _) = none

  unfoldable pub as_score : Option (Json F) → Option (Score F)
  as_score none = none
  as_score (some (integer n)) = some (whole n)
  as_score (some (number x)) = some (float x)
  as_score (some _) = none

  infixl 5 ◌>>=◌
  abbrev ◌>>=◌ : {A B : Type 0} → Option A → (A → Option B) → Option B
  none >>= f = none
  some a >>= f = f a

  -- The checks inside the `try`; `none` stands for whatever they raise.
  unfoldable pub checked :
      Option Bool → Option Bool → Option Bool → Option (Score F) → Option (Evaluation F)
  checked approved scope_ok grounding_ok score = do
    a ← approved
    s ← scope_ok
    g ← grounding_ok
    c ← score
    if in_unit c
        then some (record { approved = a; score = c; grounding_ok = g; scope_ok = s })
        else none

  unfoldable pub validate : Json F → Option (Evaluation F)
  validate (object fields) =
      checked (as_bool (get_field (codes "approved") fields))
        (as_bool (get_field (codes "scope_ok") fields))
        (as_bool (get_field (codes "grounding_ok") fields))
        (as_score (get_field (codes "confidence_score") fields))
  validate _ = none

  abbrev pub unavailable_evaluation : Evaluation F
  unavailable_evaluation = record {
    approved = false;
    score = float zero_point;
    grounding_ok = false;
    scope_ok = false;
  }

  pub record Judged : Type 0 where
    pub evaluation : Evaluation F
    pub unavailable : Bool
    -- What the call adds to the usage.
    pub used_input : ℕ
    pub used_output : ℕ

  unfoldable pub parsed : Reply → Option (Evaluation F)
  parsed reply = do value ← loads (payload reply.content); validate value

  judge_reply : Reply → Option (Evaluation F) → Judged
  judge_reply reply none = record {
    evaluation = unavailable_evaluation;
    unavailable = true;
    used_input = reply.input_tokens;
    used_output = reply.output_tokens;
  }
  judge_reply reply (some evaluation) = record {
    evaluation = evaluation;
    unavailable = false;
    used_input = reply.input_tokens;
    used_output = reply.output_tokens;
  }

  -- `none` is a call of the model that raised.
  unfoldable pub run_judge_evaluation : Option Reply → Judged
  unfolding judge_reply
  run_judge_evaluation none = record {
    evaluation = unavailable_evaluation;
    unavailable = true;
    used_input = 0;
    used_output = 0;
  }
  run_judge_evaluation (some reply) = judge_reply reply (parsed reply)

  -- `_approved`
  unfoldable pub approves : Evaluation F → Bool
  unfolding passes
  approves e = e.approved && (e.scope_ok && (e.grounding_ok && passes e.score))

  abbrev pub judge_down : Str
  judge_down =
      codes
        "Não tenho informações suficientes para responder com segurança. Por favor, reformule sua pergunta."

  abbrev pub out_of_scope : Str
  out_of_scope =
      codes "Posso ajudar apenas com assuntos do Mottainai — promoções, lojas, estoque, "
      ++ codes "fidelidade, sustentabilidade e indicadores do negócio. Em que posso te ajudar?"

  abbrev pub not_grounded : Str
  not_grounded =
      codes "Não encontrei essa informação com segurança nos dados disponíveis. "
      ++ codes "Pode reformular a pergunta ou perguntar de outro jeito?"

  abbrev pub not_confident : Str
  not_confident =
      codes "Não consigo confirmar essa resposta com segurança agora. "
      ++ codes "Tente perguntar de outra forma."

  -- The message for a response that is not approved.
  unfoldable pub refusal : Judged → Str
  refusal j =
      if j.unavailable
      then judge_down
      else if not j.evaluation.scope_ok
      then out_of_scope
      else if not j.evaluation.grounding_ok
      then not_grounded
      else not_confident

  unfoldable pub settle : State F → Judged → ℕ → ℕ → State F
  settle state j used_input used_output = record state {
    agent_response = if approves j.evaluation then state.agent_response else refusal j;
    judge_approved = approves j.evaluation;
    judge_score = j.evaluation.score;
    input_tokens = state.input_tokens + used_input;
    output_tokens = state.output_tokens + used_output;
  }

  -- Which of the two evaluations counts after a retry.
  unfoldable pub counted : Judged → Judged → Judged
  counted first retry =
      if approves retry.evaluation || first.unavailable && not retry.unavailable
      then retry
      else first

  -- The replies are to the evaluation and to the one re-evaluation that follows a rejection.
  unfoldable pub node_agente_juiz : Option Reply → Option Reply → State F → State F
  node_agente_juiz reply second state =
      let first = run_judge_evaluation reply in
      if approves first.evaluation
      then settle state first first.used_input first.used_output
      else let retry = run_judge_evaluation second in
        settle state (counted first retry) (first.used_input + retry.used_input)
          (first.used_output + retry.used_output)
