-- ===== src/Service.antt =====
-- app/main.py as a service: the routes that its decorators declare, and ai_agent_client.py talking to
-- them. FastAPI is a parameter: how it reads a request into a route's arguments, what it answers by
-- itself, and how it sends what a handler returns or raises.

pub mod Calls
pub mod Statuses
pub mod Reports
pub mod Actions
pub mod Blocks
pub mod Creation
pub mod Script
pub mod Approvals
use ai_k8s_gateway.Base.{ℕ, String, Option, none, some, List, [], ◌∷◌, ◌++◌, ◌≡◌, map}
use ai_k8s_gateway.Base.Int.{pos}
use ai_k8s_gateway.Errors.{Exception, http_exception, Result, ok, raise}
use ai_k8s_gateway.Value.{Value, null, int, str, arr, items, dict, Params, to_fields}
use ai_k8s_gateway.Risk.{level_text}
use ai_k8s_gateway.Audit.{Decision}
use ai_k8s_gateway.Audit
use ai_k8s_gateway.Gateway.{
  Env, World, AgentActionRequest, AgentActionResponse, ApproveRequest, ApprovalResponse,
  agent_action, list_pending, approve_action, health,
}
use ai_k8s_gateway.Client.{Request, post, Response, Network, payload_of}

-- The four routes with their arguments, the token aside.
pub data Route : Type 0 where
  acting : AgentActionRequest → Route
  listing : Route
  approving : (request_id : String) → ApproveRequest → Route
  probing : Route

pub record Framework : Type 0 where
  -- none where FastAPI answers by itself: no such path, or a body that does not fit.
  pub route : Request → Option Route
  pub rejection : Request → Response
  pub reply : Result Value → Response

-- An exception that FastAPI does not know.
abbrev pub code_of : Exception → ℕ
code_of (http_exception status detail) = status
code_of _ = 500

-- What FastAPI documents of its replies.
pub record IsLawful (f : Framework) : Type 0 where
  pub answered_status : (v : Value) → (f.reply (ok v)).status_code ≡ 200
  pub answered_json : (v : Value) → (f.reply (ok v)).json ≡ ok v
  pub raised_status : (e : Exception) → (f.reply (raise e)).status_code ≡ code_of e
  pub raised_json :
      (status : ℕ) (detail : Value)
      → (f.reply (raise (http_exception status detail))).json ≡ ok (dict (("detail", detail) ∷ []))

abbrev pub decision_text : Decision → String
decision_text Audit.allow = "allow"
decision_text Audit.deny = "deny"
decision_text Audit.pending_approval = "pending-approval"
decision_text Audit.human_allow = "human-allow"
decision_text Audit.human_deny = "human-deny"

abbrev or_null : Option Value → Value
or_null none = null
or_null (some v) = v

-- The fields of `AgentActionResponse`.
abbrev pub response_json : AgentActionResponse → Value
response_json r = dict (
    ("request_id", str r.request_id)
    ∷ ("decision", str (decision_text r.decision))
    ∷ ("risk_level", str (level_text r.risk_level))
    ∷ ("risk_score", int (pos r.risk_score))
    ∷ ("message", str r.message)
    ∷ ("data", or_null r.result)
    ∷ [])

-- The dict that `approve_action` returns.
abbrev pub approval_json : ApprovalResponse → Value
approval_json r = dict (
    ("request_id", str r.request_id)
    ∷ ("decision", str (decision_text r.decision))
    ∷ ("approver", r.approver)
    ∷ ("message", str r.message)
    ∷ ("data", or_null r.result)
    ∷ [])

abbrev pub pending_json : ℕ × List Params → Value
pending_json (count, rows) =
    dict (("count", int (pos count)) ∷ ("items", arr (items (map dict rows))) ∷ [])

abbrev pub health_json : List (String × String) → Value
health_json fields = dict (map (λ (key, text). (key, str text)) fields)

abbrev pub as_json : {A : Type 0} → (A → Value) → Result A → Result Value
as_json f (ok a) = ok (f a)
as_json f (raise e) = raise e

module _ (framework : Framework) (env : Env) (token : String) where
  abbrev pub respond : {A : Type 0} → (A → Value) → Result A × World → Response × World
  respond f (r, w) = (framework.reply (as_json f r), w)

  unfoldable pub handle : Route → World → Response × World
  handle (acting body) w = respond response_json (agent_action env token body w)
  handle listing w = respond pending_json (list_pending env token w)
  handle (approving id body) w = respond approval_json (approve_action env token id body w)
  handle probing w = respond health_json (health env w)

  -- A request that carries the token.
  unfoldable pub serve : Request → World → Response × World
  serve request w = elim (framework.route request) [
    | none ↦ (framework.rejection request, w)
    | some route ↦ handle route w
  ]

  unfoldable pub replay : List Request → World → World
  replay [] w = w
  replay (request ∷ requests) w = replay requests (serve request w).1

  -- The network of a client that the service has to itself, from the world `w` on.
  abbrev pub network : World → Network
  network w sent request = some (serve request (replay sent w)).0

-- What the client's `action` posts.
abbrev pub request_of : AgentActionRequest → Request
request_of body =
    post "/agent-action" (payload_of body.action body.resource body.namespace (some body.params))
