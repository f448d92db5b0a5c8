-- ===== src/Agents/Graph.antt =====
-- app/agents/supervisor.py: the nodes around the agents and the edges of `build_graph`. An agent
-- node is an argument: it raises or gives the fields that every agent node sets.
pub mod Stages
pub mod Released
pub mod Safety
use mottainai_ia.Base.{
  ℕ, ◌+◌, ◌*◌, Bool, true, false, List, [], ◌∷◌, ◌++◌, Option, none, some, if◌then◌else◌,
}
use mottainai_ia.Base.Int.{ℤ}
use mottainai_ia.Base.Floats.{Floats}
use mottainai_ia.Text.Case.{Str, codes}
use mottainai_ia.Text.Search.{str_mem}
use mottainai_ia.Cache.SortedSets.{SortedSets}
use mottainai_ia.Cache.RateLimit.{RateLimitSettings, Call}
use mottainai_ia.Memory.Documents.{Source, Conversation, Chats, Stored}
use mottainai_ia.Memory.Sessions.{
  Opened, opened, ownership_error, closed_error, inactivity_error, expiration_cutoff,
  get_or_create_conversation, Saying, save_message,
}
use mottainai_ia.Memory.History.{Cursor, load_history}
use mottainai_ia.Memory.LongTerm.{load_memory, Update, update_memory}
use mottainai_ia.Memory.Extractor.{Extracted, extract_memories}
use mottainai_ia.Guardrails.Entrada.{GuardrailResult, guardrail_entrada}
use mottainai_ia.Guardrails.Saida.{guardrail_saida}
use mottainai_ia.Agents.State.{State, ToolRun, truthy}
use mottainai_ia.Agents.Intents.{Intent}
use mottainai_ia.Agents.Supervisor.{node_supervisor_route}
use mottainai_ia.Agents.Judge.{Json, Reply, node_agente_juiz}

-- What may leave a node instead of a state.
pub data Failure : Type 0 where
  not_owner : Failure
  session_closed : Failure
  session_expired : Failure
  no_document : Failure
  agent_raised : Failure
  no_such_node : Failure
  -- The TypeError of a null threshold in the catalog.
  type_error : Failure

pub data Result (A : Type 0) : Type 0 where
  failed : Failure → Result A
  done : A → Result A

-- The fields that an agent node sets; `grounding` is none where it leaves that field alone.
pub record Answer : Type 0 where
  pub agent_response : Str
  pub grounding : Option Str
  pub sources : List Source
  pub input_tokens : ℕ
  pub output_tokens : ℕ
  pub tool_runs : List ToolRun

-- `x or y` for texts
unfoldable pub text_or : Option Str → Str → Str
text_or none y = y
text_or (some []) y = y
text_or (some (c ∷ s)) y = c ∷ s

-- The databases that the graph writes to.
pub record Databases : Type 0 where
  pub chats : Chats
  pub memories : List Stored

-- The readings of the clock and the new identifier of one request, with the ticks of a minute.
pub record Clock : Type 0 where
  pub minute : ℕ
  pub session_timeout_minutes : ℕ
  pub new_id : ℕ
  pub opened_at : ℕ
  pub checked_at : ℕ
  pub asked_at : ℕ
  pub answered_at : ℕ
  pub noted_at : ℕ

abbrev pub unavailable_output : Str
unavailable_output = codes "Não consigo fornecer essa informação no momento."

abbrev pub known_agents : List Str
known_agents =
    codes "cliente"
    ∷ codes "faq"
    ∷ codes "funcionario"
    ∷ codes "dono"
    ∷ codes "motor_preditivo"
    ∷ []

-- `for preference in …: await update_memory(…, new_preference=preference)`, and the same for facts.
unfoldable pub note_all : ℤ → ℤ → (Str → Update) → ℕ → List Str → List Stored → List Stored
note_all empresa_id usuario_id update now [] db = db
note_all empresa_id usuario_id update now (x ∷ xs) db =
    note_all empresa_id usuario_id update now xs
      (update_memory empresa_id usuario_id (update x) now db)

abbrev pub agent_update : Str → Update
agent_update agent = record {
  new_preference = none;
  new_fact = none;
  set_agent = some agent;
  set_skill = none;
}

abbrev pub preference_update : Str → Update
preference_update preference = record {
  new_preference = some preference;
  new_fact = none;
  set_agent = none;
  set_skill = none;
}

abbrev pub fact_update : Str → Update
fact_update fact = record {
  new_preference = none;
  new_fact = some fact;
  set_agent = none;
  set_skill = none;
}

unfoldable pub learn : ℤ → ℤ → Str → Extracted → ℕ → List Stored → List Stored
unfolding note_all
learn empresa_id usuario_id agent extracted now db =
    note_all empresa_id usuario_id fact_update now extracted.facts (
      note_all empresa_id usuario_id preference_update now extracted.preferences
        (update_memory empresa_id usuario_id (agent_update agent) now db))

module _ (fl : Floats) where
  open fl use {F}

  unfoldable pub entered : GuardrailResult → State F → State F
  unfolding text_or
  entered result state =
      if result.allowed
      then record state {
        sanitized_input = text_or result.sanitized_input state.user_input;
        error = none;
        error_code = none;
      }
      else record state {
        error = result.reason;
        error_code = result.code;
        final_response = text_or result.reason [];
        agent_response = [];
      }

  module _ (redis : SortedSets) where
    open redis use {Store}

    unfoldable pub node_guardrail_entrada :
        RateLimitSettings → Call → State F → Store → State F × Store
    unfolding entered
    node_guardrail_entrada settings c state s =
        let (result, s') =
          guardrail_entrada redis settings state.user_input state.usuario_id state.empresa_id c s in
        (entered result state, s')

  module _ (cursor : Cursor) where
    unfoldable pub loaded : State F → List Stored → Opened → Chats → Result (State F)
    loaded state memories ownership_error chats = failed not_owner
    loaded state memories closed_error chats = failed session_closed
    loaded state memories inactivity_error chats = failed session_expired
    loaded state memories (opened none) chats = failed no_document
    loaded state memories (opened (some conv)) chats = done (record state {
      history = load_history cursor state.session_id state.empresa_id state.usuario_id 20 chats;
      memory = load_memory state.empresa_id state.usuario_id memories;
      conversation_id = some conv.id;
    })

    unfoldable pub node_load_context : Clock → State F → Databases → Result (State F) × Databases
    unfolding loaded
    node_load_context clock state db =
        if truthy state.error
        then (done state, db)
        else let (result, chats) =
            get_or_create_conversation state.session_id state.empresa_id state.usuario_id
              (codes "pending") clock.new_id clock.opened_at
              (expiration_cutoff clock.minute clock.session_timeout_minutes clock.checked_at)
              db.chats in
          (loaded state db.memories result chats, record db { chats = chats })

  -- `{**state, …}` of an agent node.
  unfoldable pub answered : Answer → State F → State F
  answered a state = record state {
    agent_response = a.agent_response;
    grounding_context = elim a.grounding [ none ↦ state.grounding_context | some g ↦ some g ];
    sources = a.sources;
    input_tokens = a.input_tokens;
    output_tokens = a.output_tokens;
    tool_runs = state.tool_runs ++ a.tool_runs;
  }

  abbrev pub user_saying : State F → Saying
  user_saying state = record {
    role = codes "user";
    content = state.sanitized_input;
    agent = some state.selected_agent;
    input_tokens = none;
    output_tokens = none;
    sources = [];
  }

  abbrev pub assistant_saying : State F → Str → Saying
  assistant_saying state final = record {
    role = codes "assistant";
    content = final;
    agent = some state.selected_agent;
    input_tokens = some state.input_tokens;
    output_tokens = some state.output_tokens;
    sources = state.sources;
  }

  abbrev pub final_of : State F → Str
  final_of state =
      let result = guardrail_saida state.agent_response in
      if result.safe then result.output else unavailable_output

  unfoldable pub remember_exchange : Clock → State F → Databases → Databases
  unfolding learn
  remember_exchange clock state db = record {
    chats =
        save_message state.session_id state.empresa_id state.usuario_id
          (assistant_saying state (final_of state)) clock.answered_at
          (save_message state.session_id state.empresa_id state.usuario_id (user_saying state)
            clock.asked_at db.chats);
    memories =
        learn state.empresa_id state.usuario_id state.selected_agent
          (extract_memories state.sanitized_input) clock.noted_at db.memories;
  }

  unfoldable pub node_guardrail_saida : Clock → State F → Databases → State F × Databases
  unfolding remember_exchange
  node_guardrail_saida clock state db =
      if truthy state.error
      then (state, db)
      else (record state { final_response = final_of state }, remember_exchange clock state db)

  module _ (redis : SortedSets) (cursor : Cursor) (loads : Str → Option (Json F))
      (agent : Str → State F → Option Answer) where
    open redis use {Store}

    -- What a request meets on its way, apart from the databases.
    pub record Request : Type 0 where
      pub settings : RateLimitSettings
      pub call : Call
      pub clock : Clock
      pub intents : List (Intent F)
      pub reply : Option Reply
      pub second : Option Reply

    -- The two last edges: from the agent to the judge, and from the judge to the output guardrail.
    unfoldable pub judged_and_filtered : Request → State F → Databases → State F × Databases
    unfolding node_guardrail_saida
    judged_and_filtered request state db =
        node_guardrail_saida request.clock
          (node_agente_juiz fl loads request.reply request.second state) db

    -- The edge that `_route_agent` chooses. LangGraph raises on a name that has no node.
    unfoldable pub with_answer :
        Request → State F → Databases → Option Answer → Result (State F) × Databases
    unfolding judged_and_filtered
    with_answer request state db none = (failed agent_raised, db)
    with_answer request state db (some a) =
        let (state', db') = judged_and_filtered request (answered a state) db in (done state', db')

    unfoldable pub agent_and_after : Request → State F → Databases → Result (State F) × Databases
    unfolding with_answer
    agent_and_after request state db =
        if str_mem state.selected_agent known_agents
        then with_answer request state db (agent state.selected_agent state)
        else (failed no_such_node, db)

    unfoldable pub after_route :
        Request → Option (State F) → Databases → Result (State F) × Databases
    unfolding agent_and_after
    after_route request none db = (failed type_error, db)
    after_route request (some state) db = agent_and_after request state db

    unfoldable pub after_context :
        Request → Result (State F) → Databases → Result (State F) × Databases
    unfolding after_route
    after_context request (failed f) db = (failed f, db)
    after_context request (done state) db =
        after_route request (node_supervisor_route fl request.intents state) db

    -- One run of the compiled graph.
    unfoldable pub run_graph :
        Request → State F → Store → Databases → Result (State F) × (Store × Databases)
    unfolding node_guardrail_entrada after_context
    run_graph request state s db =
        let (state1, s') = node_guardrail_entrada redis request.settings request.call state s in
        if truthy state1.error
        then (done state1, (s', db))
        else let (context, db1) = node_load_context cursor request.clock state1 db in
          let (result, db2) = after_context request context db1 in (result, (s', db2))
