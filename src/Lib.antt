-- ===== src/Lib.antt =====
-- The core of the Mottainai IA service (Python): what happens to a chat message between the HTTP
-- route and the stored conversation, and the state that this leaves in Redis and MongoDB.
--
-- A message of `POST /chat` (interfaces/api/main.py) runs through the graph of
-- app/agents/supervisor.py: input guardrail, loading of the session, choice of the agent by role and
-- intent, the agent, the judge, output guardrail. `Agents.Chat` is the route, `Agents.Graph` the
-- nodes and edges (`run_graph` for the compiled graph of `build_graph`), with
--   * `Guardrails.Entrada` and `Guardrails.Saida` for app/guardrails/entrada.py and saida.py,
--   * `Agents.Supervisor` for `node_supervisor_route` and `Agents.Intents` for
--     app/agents/intent_catalog.py,
--   * `Agents.Judge` for app/agents/juiz.py,
--   * `Memory.Sessions` and `Memory.History` for app/memory/short_term.py, `Memory.LongTerm` for
--     long_term.py, `Memory.Extractor` for extractor.py, their documents in `Memory.Documents`,
--   * `Cache.RateLimit`, `Cache.Idempotency`, `Cache.Notifications` and `Cache.Keyspace` for
--     app/cache/rate_limit.py, idempotency.py, notifications.py and keyspace.py,
--   * `Agents.Tools` for `run_agent_with_tools` of app/agents/runtime.py.
-- Around it, `Security.Claims` and `Security.Tokens` make the principal of a token
-- (app/security/auth.py), and `Skills.Manifest`, `Skills.Registry` and `Skills.Executor` are
-- app/skills/base.py, registry.py and executor.py.
--
-- What the agents work with has these parts:
--   * `Rag.Ingestion` and `Rag.Documents` for app/rag/ingestion.py: the division of an uploaded
--     document, and the writes and removals of the knowledge base that `Rag.Retrieval`
--     (app/rag/retriever.py) searches behind its cache,
--   * `Agents.Toolkit` for app/agents/tools_bridge.py, the tools that a request binds, and
--     `Agents.Context` for app/agents/context.py, the text in which a tool's records reach the model,
--   * `Inventory.Writes` for the two writes of app/tools/postgres_tools.py, with the checks of
--     app/database/identity.py in `Inventory.Operational`, and `Inventory.Crosscheck` for the check of a
--     shelf against the stock,
--   * `Analytics.Forecasting` for app/analytics/forecasting.py,
--   * `Integrations` for app/integrations/mcp_a2a.py, the tools that agents outside may call, with the
--     routes of interfaces/api/main.py in `Integrations.Dispatch.Routes`, and `Integrations.Webhook` for
--     app/notifications/alert_webhook.py.
-- The functions keep the names of the source. A function that reads or writes a database takes its
-- contents and returns the new ones; readings of the clock, new identifiers and the replies of the
-- model are arguments. `Text` has what the code uses of Python's texts: code points, `lower`, `upper`,
-- `strip` (case tables for Latin-1), `split`, `in`, `str` of integers, and a backtracking matcher for
-- the regular expressions, whose fuel is the length of the text: each pass of a star consumes a
-- character.
--
-- Parameters, since they are not part of the repository: Redis as sorted sets (`Cache.SortedSets`)
-- and as an entry with a lock (`Cache.Idempotency.KeyStore`) and as the hashes, sets and counters
-- of `Cache.Notifications.Inboxes`, MongoDB's sorted and limited cursor (`Memory.History.Cursor`),
-- Python's floats (`Base.Floats`), `json.loads` of the judge's reply, the agent nodes, each a
-- function from the state to the fields that it sets, the model in the loop of tool calls, PyJWT
-- and the directory of accounts, JSON Schema with the import and the run of a skill, the operational database with
-- its procedure for stock and Python's decimals (`Inventory.Operational`), the text of a float and the
-- comparison of two lengths by 0.85 (`Agents.Context.Printing`), the embedding model with numpy's scores
-- and SHA-256 (`Rag.Retrieval`), the arithmetic of floats (`Analytics.Forecasting.Reals`) and the data
-- layer behind the integrations. The files of `Tests` fill each with a concrete function. Concurrency
-- is modelled for the idempotent writes, where every await is a step of its own; a graph run and the
-- operations on sessions are single steps. Time is a number that the schedule or the call brings:
-- results of idempotent writes and the marks of delivered alerts expire.
--
-- The exceptions that the source lets through are values: a skill's `uncaught`, a run's `Failure`, an
-- upload that `raised`.
--
-- Not modelled: the timings of nodes and their logs, the text of prompts, the record of an
-- evaluation, the background records of the route but for their status, most exceptions of the
-- databases, the quota waits of the model clients, the queries of the analytical tools, the listing of
-- an inbox, metrics, vision, the weather source, and the scripts. The loop of tool calls
-- needs no fuel: its bound is the source's.
pub mod Agents
pub mod Analytics
pub mod Base
pub mod Cache
pub mod Guardrails
pub mod Integrations
pub mod Inventory
pub mod Memory
pub mod Rag
pub mod Security
pub mod Skills
pub mod Tests
pub mod Text
