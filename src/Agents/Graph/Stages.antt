-- ===== src/Agents/Graph/Stages.antt =====
-- What has happened when a run of the graph ends with a state.
use mottainai_ia.Base.{
  ◌≡◌, refl, sym, ap, ◌∙◌, subst, ◌⊎◌, inl, inr, true, false, List, Option, none, some, arith,
  Bool-cases, none-not-some, some_inj, [], ◌∷◌,
}
use mottainai_ia.Base.Floats.{Floats}
use mottainai_ia.Text.Case.{Str, upper, lower}
use mottainai_ia.Text.Search.{str_mem}
use mottainai_ia.Cache.SortedSets.{SortedSets}
use mottainai_ia.Memory.Documents.{Chats, Stored}
use mottainai_ia.Memory.Sessions.{Opened, opened, ownership_error, closed_error, inactivity_error}
use mottainai_ia.Memory.History.{Cursor}
use mottainai_ia.Agents.State.{State, truthy}
use mottainai_ia.Agents.Intents.{Intent, Matched, match_intent}
use mottainai_ia.Agents.Judge.{Json}
use mottainai_ia.Agents.Supervisor.{
  node_supervisor_route, by_match, by_trial, by_default, role_to_intent_agents,
}
use mottainai_ia.Agents.Graph.{
  Result, done, failed, Failure, no_such_node, Answer, Databases, Clock, known_agents, Request,
  loaded, node_load_context, answered, judged_and_filtered, with_answer, agent_and_after,
  after_route, after_context, node_guardrail_entrada, run_graph,
}

value_or : {A : Type 0} → A → Result A → A
value_or a (done b) = b
value_or a (failed f) = a

done-injective : {A : Type 0} {a b : A} → done a ≡ done b → a ≡ b
unfolding value_or
done-injective {a = a} e = ap (value_or a) e

failed≢done : {A : Type 0} (f : Failure) (a : A) → failed f ≡ done a → ⊥
failed≢done f a e = cc

module _ (fl : Floats) where
  open fl use {F}

  -- Loading the context and routing keep who asks, what they ask and whether there is an error.
  pub record SameRequest (a b : State F) : Type 0 where
    pub same_error : a.error ≡ b.error
    pub same_role : a.user_role ≡ b.user_role
    pub same_input : a.sanitized_input ≡ b.sanitized_input

  same_trans : {a b c : State F} → SameRequest a b → SameRequest b c → SameRequest a c
  same_trans h g = record {
    same_error = h.same_error ∙ g.same_error;
    same_role = h.same_role ∙ g.same_role;
    same_input = h.same_input ∙ g.same_input;
  }

  same_by : {a b c : State F} → a ≡ b → SameRequest b c → SameRequest a c
  same_by {c = c} e h = subst (λ z. SameRequest z c) (sym e) h

  matched_same :
      (state : State F) (role : Str) (o : Option (Matched F))
      → SameRequest (by_match fl state role o) state
  unfolding by_match
  matched_same state role o = record {
    same_error = ground arith;
    same_role = ground arith;
    same_input = ground arith;
  }

  trial_same :
      (state routed : State F) (role : Str) (o : Option (Option (Matched F)))
      → by_trial fl state role o ≡ some routed
      → SameRequest routed state
  trial_same state routed role none e = absurd (none-not-some e)
  trial_same state routed role (some o) e = same_by (sym (some_inj.0 e)) (matched_same state role o)

  routed_same :
      (intents : List (Intent F)) (state routed : State F)
      → node_supervisor_route fl intents state ≡ some routed
      → SameRequest routed state
  unfolding node_supervisor_route
  routed_same intents state routed e = elim (Bool-cases (truthy state.error)) [
    | inl stopped ↦
        same_by (sym (some_inj.0 (rw (stopped, node_supervisor_route) at e)))
          (record { same_error = refl; same_role = refl; same_input = refl })
    | inr going ↦
        at_agents (role_to_intent_agents (upper state.user_role))
          (rw (going, node_supervisor_route) at e)
  ]
    where
      at_agents :
          (agents : List Str)
          → (elim agents [
            | [] ↦ some (by_default fl state (upper state.user_role))
            | a ∷ others ↦
                by_trial fl state
                  (upper state.user_role)
                  (match_intent fl (lower state.sanitized_input) (a ∷ others) intents)
          ])
            ≡ some routed
          → SameRequest routed state
      at_agents [] h =
          same_by (sym (some_inj.0 h))
            (record { same_error = refl; same_role = refl; same_input = refl })
      at_agents (a ∷ others) h = trial_same state routed (upper state.user_role) _ h

  module _ (cursor : Cursor) where
    loaded_same :
        (state st : State F) (memories : List Stored) (o : Opened) (chats : Chats)
        → loaded fl cursor state memories o chats ≡ done st
        → SameRequest st state
    unfolding loaded
    loaded_same state st memories ownership_error chats e = cc
    loaded_same state st memories closed_error chats e = cc
    loaded_same state st memories inactivity_error chats e = cc
    loaded_same state st memories (opened none) chats e = cc
    loaded_same state st memories (opened (some conv)) chats e =
        same_by (sym (done-injective e))
          (record { same_error = refl; same_role = refl; same_input = refl })

    context_same :
        (clock : Clock) (state st : State F) (db : Databases)
        → truthy state.error ≡ false
        → (node_load_context fl cursor clock state db).0 ≡ done st
        → SameRequest st state
    unfolding node_load_context
    context_same clock state st db no_error e =
        loaded_same state st db.memories _ _ (rw (no_error, node_load_context) at e)

  module _ (redis : SortedSets) (cursor : Cursor) (loads : Str → Option (Json F))
      (agent : Str → State F → Option Answer) (request : Request fl redis cursor loads agent) where
    -- A run that ends with a state and no error has had the answer of an agent that the graph has,
    -- to a state that passed the input guardrail and was routed; the judge and the output guardrail
    -- made the final state of it.
    pub record Passed (entered : State F) (st : State F) : Type 0 where
      pub before : State F
      pub routed : State F
      pub same_before : SameRequest before entered
      pub route : node_supervisor_route fl request.intents before ≡ some routed
      pub answer : Answer
      pub db : Databases
      pub same : SameRequest routed entered
      pub known : str_mem routed.selected_agent known_agents ≡ true
      pub answer_of : agent routed.selected_agent routed ≡ some answer
      pub finished :
          st
          ≡ (judged_and_filtered fl redis cursor loads agent request
              (answered fl answer routed)
              db).0

    passed_answer :
        (entered before routed st : State F) (db : Databases) (o : Option Answer)
        → SameRequest before entered
        → node_supervisor_route fl request.intents before ≡ some routed
        → SameRequest routed entered
        → str_mem routed.selected_agent known_agents ≡ true
        → agent routed.selected_agent routed ≡ o
        → (with_answer fl redis cursor loads agent request routed db o).0 ≡ done st
        → Passed entered st
    unfolding with_answer
    passed_answer entered before routed st db none same_before route same known e h = cc
    passed_answer entered before routed st db (some a) same_before route same known e h = record {
      before = before;
      same_before = same_before;
      route = route;
      routed = routed;
      answer = a;
      db = db;
      same = same;
      known = known;
      answer_of = e;
      finished = sym (done-injective h);
    }

    passed_agent :
        (entered before routed st : State F) (db : Databases)
        → SameRequest before entered
        → node_supervisor_route fl request.intents before ≡ some routed
        → SameRequest routed entered
        → (agent_and_after fl redis cursor loads agent request routed db).0 ≡ done st
        → Passed entered st
    unfolding agent_and_after
    passed_agent entered before routed st db same_before route same h =
        elim (Bool-cases (str_mem routed.selected_agent known_agents)) [
          | inl known ↦
              passed_answer entered before routed st db (agent routed.selected_agent routed)
                same_before route same known refl (rw (known, agent_and_after) at h)
          | inr unknown ↦ absurd (failed≢done no_such_node st (rw (unknown, agent_and_after) at h))
        ]

    passed_route :
        (entered before st : State F) (db : Databases) (o : Option (State F))
        → SameRequest before entered
        → node_supervisor_route fl request.intents before ≡ o
        → (after_route fl redis cursor loads agent request o db).0 ≡ done st
        → Passed entered st
    unfolding after_route
    passed_route entered before st db none same e h = cc
    passed_route entered before st db (some routed) same e h =
        passed_agent entered before routed st db same e
          (same_trans (routed_same request.intents before routed e) same) h

    passed_context :
        (entered st : State F) (context : Result (State F)) (db : Databases)
        → ((loaded_state : State F)
            → context ≡ done loaded_state
            → SameRequest loaded_state entered)
        → (after_context fl redis cursor loads agent request context db).0 ≡ done st
        → Passed entered st
    unfolding after_context
    passed_context entered st (failed f) db same h = cc
    passed_context entered st (done loaded_state) db same h =
        passed_route entered loaded_state st db _ (same loaded_state refl) refl h

    pub ran :
        (state st : State F) (s : redis.Store) (db : Databases)
        → (run_graph fl redis cursor loads agent request state s db).0 ≡ done st
        → (truthy (node_guardrail_entrada fl redis request.settings request.call state s).0.error
              ≡ true)
            × (st ≡ (node_guardrail_entrada fl redis request.settings request.call state s).0)
            × ((run_graph fl redis cursor loads agent request state s db).1.1 ≡ db)
          ⊎ (truthy (node_guardrail_entrada fl redis request.settings request.call state s).0.error
              ≡ false)
            × Passed (node_guardrail_entrada fl redis request.settings request.call state s).0 st
    unfolding run_graph
    ran state st s db h =
        let entered = (node_guardrail_entrada fl redis request.settings request.call state s).0 in
        elim (Bool-cases (truthy entered.error)) [
          | inl stopped ↦ inl (
            stopped,
            sym (done-injective (rw (stopped, run_graph) at h)),
            rw (stopped, run_graph) refl,
          )
          | inr going ↦ inr (
            going,
            passed_context entered st (node_load_context fl cursor request.clock entered db).0
                (node_load_context fl cursor request.clock entered db).1
                (λ loaded_state e.
                  context_same cursor request.clock entered loaded_state db going e)
                (rw (going, run_graph) at h),
          )
        ]
