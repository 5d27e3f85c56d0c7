-- ===== src/Lib.antt =====
-- SmartSRE Copilot: the core of the backend (app/), an assistant for site reliability that runs
-- bounded agent loops over governed tools, and the services around it.
--
-- Parts and files. A module `A.B` is verification/A/B.antt; the theorems on a part stand in its
-- child modules, and their witnesses, with runs on small data, in its `Tests`.
-- - Prelude: the names shared by all files, lists measured by native numbers, dictionaries as
--   association lists, Boolean tests.
-- - Auth: app/security/auth.py. `load_api_key_roles` and `load_api_key_subjects` with the caches of
--   the module passed as a state, `get_current_principal`, `require_capability` and
--   `validate_security_configuration`. JSON parsing is a parameter.
-- - RateLimit: the token bucket of app/security/rate_limit.py, behind the dependency of Auth.
-- - Indexing: the table of indexing tasks, app/platform/persistence/repositories/indexing.py, one
--   function per repository method on a list of rows; app/application/indexing/service.py; the
--   retry route of app/api/routes/file.py. The result of indexing a file is a parameter.
-- - Indexing.Dispatcher: app/infrastructure/tasks/dispatcher.py, the rounds of the two worker loops
--   and the start. A worker loop runs on fuel, a number of rounds.
-- - Decision: the records and providers of app/agent_runtime/decision.py. `decide` is the rule-based
--   provider; `qwen_decision` is what the model-backed one makes of a model's reply.
-- - Decision.Graph: the nodes and edges of `AgentDecisionRuntime`; `run_graph_once` is one run.
-- - Evidence: app/agent_runtime/evidence.py and the evidence items of app/agent_runtime/state.py.
-- - Recovery: `choose_strategy` of app/agent_runtime/recovery.py, and the decision that
--   app/agent_runtime/loop.py makes of the plan.
-- - Loop: `BoundedReActLoop.run` of app/agent_runtime/loop.py; Intervention:
--   app/agent_runtime/intervention.py. The loop takes decisions from Decision, plans from Recovery,
--   evidence items from Evidence and pending interventions from Intervention.
-- - Executor: app/agent_runtime/tool_executor.py and app/agent_runtime/policy.py. It reads the
--   capabilities of roles from Auth and JSON values from Evidence.
-- - Runs: the runs and the event log of `AgentRunRepository` in
--   app/platform/persistence/repositories/native_agent.py, which the next two share.
-- - Approvals: decisions on approvals and their expiry, of
--   app/application/native_agent_application_service.py; Approvals.Desk is the abstract view of one
--   tool's approval, which forgets the log, and Approvals.Listing the list of approvals. Approvals.Resume is
--   app/application/agent_resume_service.py with the round of its worker in
--   app/infrastructure/tasks/agent_resume.py; it calls tools by `execute_approved` of Executor.
-- - Runtime: `AgentRuntime` of app/agent_runtime/runtime.py with app/agent_runtime/approval.py and the
--   failure events of app/agent_runtime/recovery.py. Runtime.Steps is the planned path over the
--   scene's tools, Runtime.Looping the path that runs Loop, Runtime.Orchestration the choice between
--   them behind Decision.Graph; `run_agent` is a run from its creation to the writes that end it,
--   which succeed. Every path writes to the log of Runs, which Approvals reads.
-- - Retrieval: the semantic cache, the router, the reranker and the confidence gate of
--   app/agent_runtime/retrieval/; Retrieval.Pipeline composes them as its pipeline.py does. What the
--   runtime takes from it is whether there are citations.
-- - Proactive: app/agent_runtime/proactive.py over its in-memory store of alert times.
--
-- Conventions. Confidences are in hundredths and times in milliseconds, as natural numbers. An
-- exception is a value: `none`, or a constructor of the outcome's type. The clock, the replies of a
-- model, the results of tools and the interventions of people are functions of the step's index.
-- `run` needs no fuel: it recurs on the number of steps that the budget allows, as the source's
-- `range` does. An injection of evidence that `AgentObservation`
-- refuses is an exception, as in the source. The worker loop is given one round for each attempt
-- that the queued tasks have left and one for each queued task without any, which is proved to be
-- enough.
--
-- Not modelled: texts that only people read, tracing, metrics, token and cost reports of providers,
-- the stream of events to the client, memory, the heuristics of the query rewriter, HTTP routes, the SQL, Redis, Milvus and
-- MCP clients, the frontend. Each file's comment says what it leaves out.
pub mod Approvals
pub mod Auth
pub mod Decision
pub mod Evidence
pub mod Executor
pub mod Indexing
pub mod Intervention
pub mod Loop
pub mod Prelude
pub mod Proactive
pub mod RateLimit
pub mod Recovery
pub mod Retrieval
pub mod Runs
pub mod Runtime
