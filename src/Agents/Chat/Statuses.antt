-- ===== src/Agents/Chat/Statuses.antt =====
-- Which answers `POST /chat` can give.
use mottainai_ia.Base.{ℕ, ◌≡◌, ◌⊎◌, Bool, true, false, Option, none, some, if◌then◌else◌}
use mottainai_ia.Base.Floats.{Floats}
use mottainai_ia.Text.Case.{Str, codes}
use mottainai_ia.Cache.SortedSets.{SortedSets}
use mottainai_ia.Memory.History.{Cursor}
use mottainai_ia.Agents.State.{State, truthy}
use mottainai_ia.Agents.Judge.{Json}
use mottainai_ia.Agents.Graph.{Result, done, failed, Failure, Answer, Databases, Request, run_graph}
use mottainai_ia.Agents.Chat.{ChatOutcome, responded, refused, raised}

module _ (fl : Floats) where
  open fl use {F}

  -- The final state is shown and logged as completed. The metrics tell a run with an error, whose
  -- text is then the response, from one without.
  pub record Responds (st : State F) (o : ChatOutcome fl) : Type 0 where
    pub shown :
        o.result
        ≡ responded (record {
          session_id = st.session_id;
          response = st.final_response;
          agent = st.selected_agent;
          judge_approved = st.judge_approved;
          judge_score = st.judge_score;
          sources = st.sources;
        })
    pub logged : o.execution_log ≡ some (codes "completed")
    pub measured :
        (truthy st.error ≡ true)
          × (st.error ≡ some st.final_response)
          × (o.metrics ≡ some (codes "error"))
        ⊎ (truthy st.error ≡ false) × (o.metrics ≡ some (codes "completed"))

  -- The answers to a run, `none` being one that was cut off.
  pub data Answered (run : Option (Result (State F))) (o : ChatOutcome fl) : Type 0 where
    responds : (st : State F) → run ≡ some (done st) → Responds st o → Answered run o
    turned_away :
        (code : ℕ) (detail : Str)
        → (code ≡ 403) ⊎ (code ≡ 409) ⊎ (code ≡ 503) ⊎ (code ≡ 504)
        → o.result ≡ refused (record { status_code = code; detail = detail; retry_after = none })
        → Answered run o
    breaks : (f : Failure) → run ≡ some (failed f) → o.result ≡ raised f → Answered run o

module _ (fl : Floats) (loads : Str → Option (Json fl.F)) (redis : SortedSets) (cursor : Cursor)
    (agent : Str → State fl.F → Option Answer) (request : Request fl redis cursor loads agent)
    (state : State fl.F) (s : redis.Store) (db : Databases) where
  -- What `ainvoke` gives, unless it is cut off.
  abbrev pub graph_result : Bool → Option (Result (State fl.F))
  graph_result in_time =
      if in_time then some (run_graph fl redis cursor loads agent request state s db).0 else none
