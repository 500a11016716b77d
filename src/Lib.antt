-- ===== src/Lib.antt =====
-- The AI agent gateway for Kubernetes: a model of its Python code and of the policy that it ships.
--
-- A request of an agent passes five stages in `agent_action` of app/main.py: its token is verified
-- (app/auth/jwt_handler.py), it is scored (app/risk/scorer.py), an OPA sidecar decides on it
-- (`_query_opa`, policies/agent_actions.rego), and then it is denied, queued for a human
-- (app/approval/queue.py) or executed (app/k8s/client.py); outcomes go to the audit log
-- (app/audit/logger.py). `approve_action` resolves a queued request. ai_agent_client.py is the client
-- that agents use.
--
--   Base, Errors, Value, Text  shared names, exceptions and results, JSON values, Python's conversions
--   Config     Settings of app/config.py
--   Risk       app/risk/scorer.py: `score`, `score_params` for `_score_params`; laws in Risk/
--   Policy     policies/agent_actions.rego: `allow`, `deny_reasons`, `payload_violations`, `reason`
--   Dict       Python's insertion-ordered dict
--   Auth       app/auth/jwt_handler.py: `create_token`, `verify_token`
--   Opa        `_query_opa` of app/main.py: `opa_input`, `read_reply`, `query_opa`
--   Approval   app/approval/queue.py: the methods of ApprovalQueue under their names
--   Audit      app/audit/logger.py: `log`
--   Logging    app/audit/structured_logger.py: `format`, and the set-up in Logging/Setup
--   Cluster    the Kubernetes SDK, as objects, calls and programs that make calls
--   K8s        app/k8s/client.py: `execute_action`, `dispatch` for `_dispatch`, `build_deployment`
--   Gateway    app/main.py: the handlers in Gateway/Handlers and Gateway/HumanHandlers; what they come
--              to, stage by stage, in Gateway/Stages, Settling and Approving
--   Enforcement  agent_action as a reference monitor for the policy; what the policy bars, in
--              Enforcement/Denials; a request from its submission to its approved run, in
--              Enforcement/Lifecycle
--   Interleaving  app/main.py as FastAPI runs it: `receive` and `resume` are `agent_action` up to and
--              from its one await that gives way, the query to OPA; `Step` is one turn of the event loop
--   Mint       app/auth/mint_tokens.py: `main`, `mint_all` for its loop
--   Demo       demo/agent_client.py: its helpers, scenarios and `main`; the requests that it expects to
--              be blocked, at the modelled gateway, in Demo/Attacks; how it ends, in Demo/Progress
--              and Demo/Completion
--   Agreement  where the policy, the scorer and the Kubernetes client read one request
--   Client     ai_agent_client.py: `action`, `handle_response`, the typed methods; in Client/Tools
--              `make_langchain_tools` and the script at the end of the file
--   Service    app/main.py as a service that the client talks to: the routes of its decorators, with
--              FastAPI as a parameter; a whole call of the client in Service/Actions, what is blocked in
--              Service/Blocks, Creation and Script, and an operator's verdict in Service/Approvals
--   Examples   a concrete environment and the theorems at concrete requests
--
-- State is passed explicitly. A handler is a function from a World (queue, audit log, trace of cluster
-- calls, tick) to a result and a World: what was written before an exception stays written. The
-- queue's and the log's locks make each of their calls atomic; in Gateway handlers run one after
-- another, and in Interleaving other calls run while one waits for OPA. The clock, UUIDs, whether the
-- audit file can be written and the sidecar's replies are functions of the tick, so that they may
-- change from one access to the next.
--
-- Parameters are the token library (with what it documents of a token as a record of laws), FastAPI
-- (how it reads a request into a route's arguments and sends what a handler returns or raises, with
-- the status and the body of its replies as a record of laws), the sidecar, the API server, httpx,
-- Python's tables for characters past ASCII, and for the demonstration json.loads, the audit file
-- and what rich raises on what it is given to print. A JSON number is an integer or a binary
-- fraction; text is a sequence of scalar values. All loops are structural recursion, so there is no
-- fuel.
--
-- Left out are the headers of requests and answers, log messages, the texts of some exceptions, the
-- JSON text of a log's line, and fixed texts that demo/agent_client.py and the client's script print.
pub mod Base
pub mod Errors
pub mod Value
pub mod Text
pub mod Config
pub mod Risk
pub mod Policy
pub mod Dict
pub mod Auth
pub mod Mint
pub mod Demo
pub mod Opa
pub mod Approval
pub mod Audit
pub mod Logging
pub mod Cluster
pub mod K8s
pub mod Agreement
pub mod Gateway
pub mod Enforcement
pub mod Interleaving
pub mod Client
pub mod Service
pub mod Examples
