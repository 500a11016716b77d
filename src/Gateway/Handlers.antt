-- ===== src/Gateway/Handlers.antt =====
-- app/main.py: /agent-action and /pending, and the removal of a queued request.
use Prim.Native.String.{◌++◌ as ◌<>◌}
use ai_k8s_gateway.Base.{
  ℕ, String, Bool, true, false, Option, none, some, List, [], ◌∷◌, if◌then◌else◌, length,
}
use ai_k8s_gateway.Errors.{http_exception, Result, ok, raise, ◌>>=◌ as ◌>>=ʳ◌}
use ai_k8s_gateway.Value.{Value, null, str, dict, Params, get_or}
use ai_k8s_gateway.Risk.{RiskLevel, high, RiskScore, score, level_text}
use ai_k8s_gateway.Auth.{verify_token}
use ai_k8s_gateway.Opa.{query_opa}
use ai_k8s_gateway.Approval
use ai_k8s_gateway.Approval.{PendingRequest}
use ai_k8s_gateway.Audit.{AuditRecord, Decision}
use ai_k8s_gateway.Audit
use ai_k8s_gateway.Gateway.Defs.{
  Env, Handler, ◌>>=◌, ◌>>◌, lift, sample, log, execute_k8s, AgentActionRequest,
  AgentActionResponse,
}

-- What stages 1 to 3 establish about a request.
pub record Assessment : Type 0 where
  pub request_id : String
  pub identity : Value
  pub role : Value
  pub request : AgentActionRequest
  pub risk : RiskScore
  pub allowed : Bool
  pub opa_reason : String

module _ (env : Env) where
  -- `verify_token(credentials)`, at the time of the call.
  unfoldable pub authenticate : String → Handler Params
  authenticate token = do
    now ← sample env.seconds
    lift (verify_token env.jwt env.settings now token)

  -- Stages 2 and 3: the score, and the policy's decision.
  unfoldable pub opa_decision :
      (tick : ℕ) → Params → AgentActionRequest → RiskScore → Result (Bool × String)
  opa_decision tick payload body risk =
      query_opa env.py env.settings (env.opa tick) (get_or null "sub" payload)
        (get_or null "role" payload) body.action body.resource body.namespace risk.level body.params

  unfoldable pub assess :
      (tick : ℕ) (request_id : String) → Params → AgentActionRequest → Result Assessment
  assess tick request_id payload body =
      score env.py env.settings body.action body.resource body.namespace (some body.params)
      >>=ʳ λ risk. opa_decision tick payload body risk >>=ʳ λ (allowed, opa_reason). ok (record {
        request_id = request_id;
        identity = get_or null "sub" payload;
        role = get_or null "role" payload;
        request = body;
        risk = risk;
        allowed = allowed;
        opa_reason = opa_reason;
      })

  unfoldable pub audit_of : Assessment → Decision → (timestamp : String) → AuditRecord
  audit_of a decision timestamp = record {
    timestamp = timestamp;
    request_id = a.request_id;
    identity = a.identity;
    role = a.role;
    action = a.request.action;
    resource = a.request.resource;
    namespace = a.request.namespace;
    params = a.request.params;
    risk_level = a.risk.level;
    risk_score = a.risk.score;
    risk_reasons = a.risk.reasons;
    decision = decision;
    opa_reason = some a.opa_reason;
    error = none;
  }

  unfoldable pub pending_of : Assessment → (queued_at : String) → PendingRequest
  pending_of a queued_at = record {
    request_id = a.request_id;
    identity = a.identity;
    role = a.role;
    action = a.request.action;
    resource = a.request.resource;
    namespace = a.request.namespace;
    params = a.request.params;
    risk_level = a.risk.level;
    risk_score = a.risk.score;
    risk_reasons = a.risk.reasons;
    queued_at = queued_at;
  }

  unfoldable pub response_of :
      Assessment → Decision → (message : String) → Option Value → AgentActionResponse
  response_of a decision message result = record {
    request_id = a.request_id;
    decision = decision;
    risk_level = a.risk.level;
    risk_score = a.risk.score;
    message = message;
    result = result;
  }

  -- Stage 4a.
  unfoldable pub deny : Assessment → Handler AgentActionResponse
  deny a = do
    log env (audit_of a Audit.deny)
    lift (
        raise (
          http_exception 403 (
            dict (
              ("request_id", str a.request_id)
              ∷ ("decision", str "deny")
              ∷ ("reason", str a.opa_reason)
              ∷ ("risk_level", str (level_text a.risk.level))
              ∷ []))))

  unfoldable pub enqueue : PendingRequest → Handler String
  enqueue request w =
      let (id, queue) = Approval.enqueue request w.queue in (ok id, record w { queue = queue })

  -- Stage 5a.
  unfoldable pub enqueue_high : Assessment → Handler AgentActionResponse
  enqueue_high a = do
    queued_at ← sample env.isoformat
    enqueue (pending_of a queued_at)
    log env (audit_of a Audit.pending_approval)
    lift (
        ok (
          response_of a Audit.pending_approval
            ("Action is high-risk and has been queued for human approval. Use GET /pending to view it and POST /approve/"
              <> a.request_id <> " to resolve.")
            none))

  -- Stage 5b.
  unfoldable pub execute_now : Assessment → Handler AgentActionResponse
  execute_now a = do
    k8s_result ←
        execute_k8s env a.request.action a.request.resource a.request.namespace a.request.params
    log env (audit_of a Audit.allow)
    lift (
        ok (
          response_of a Audit.allow "Action evaluated, approved, and executed on Kubernetes."
            (some k8s_result)))

  -- `rs.level == "high"`
  abbrev pub is_high : RiskLevel → Bool
  is_high high = true
  is_high _ = false

  -- Stages 4 and 5.
  unfoldable pub settle : Assessment → Handler AgentActionResponse
  settle a =
      if a.allowed then (if is_high a.risk.level then enqueue_high a else execute_now a) else deny a

  unfoldable pub agent_action : (token : String) → AgentActionRequest → Handler AgentActionResponse
  agent_action token body = do
    request_id ← sample env.uuid
    payload ← authenticate token
    assessed ← sample (λ tick. assess tick request_id payload body)
    a ← lift assessed
    settle a

  -- The JSON body, as its two fields.
  unfoldable pub list_pending : (token : String) → Handler (ℕ × List Params)
  list_pending token = do
    authenticate token
    λ w. let rows = Approval.list_pending env.py env.settings w.queue in (ok (length rows, rows), w)

  unfoldable pub resolve : String → Handler (Option PendingRequest)
  resolve request_id w =
      let (found, queue) = Approval.resolve request_id w.queue in
      (ok found, record w { queue = queue })
