-- ===== src/Gateway/HumanHandlers.antt =====
-- app/main.py: /approve/{id} and /health.
use Prim.Native.String.{◌++◌ as ◌<>◌}
use ai_k8s_gateway.Base.{String, Bool, Option, none, some, List, [], ◌∷◌, if◌then◌else◌, ◌==◌}
use ai_k8s_gateway.Errors.{http_exception, ok, raise}
use ai_k8s_gateway.Value.{Value, null, str, get_or}
use ai_k8s_gateway.Approval.{PendingRequest}
use ai_k8s_gateway.Audit.{AuditRecord, Decision}
use ai_k8s_gateway.Audit
use ai_k8s_gateway.Gateway.Defs.{Env, Handler, ◌>>=◌, ◌>>◌, lift, log, execute_k8s}
use ai_k8s_gateway.Gateway.Handlers.{authenticate, resolve}

pub record ApproveRequest : Type 0 where
  pub approved : Bool
  pub reason : Option String

-- The body of the response; `result` is the field `data`.
pub record ApprovalResponse : Type 0 where
  pub request_id : String
  pub decision : Decision
  pub approver : Value
  pub message : String
  pub result : Option Value

-- `reason or default`
abbrev or_text : Option String → String → String
or_text none default = default
or_text (some s) default = if s == "" then default else s

module _ (env : Env) where
  -- `{approver!r}`
  abbrev shown : Value → String
  shown v = env.py.repr v

  unfoldable pub resolved_record :
      PendingRequest → Decision → (opa_reason request_id timestamp : String) → AuditRecord
  resolved_record pending decision opa_reason request_id timestamp = record {
    timestamp = timestamp;
    request_id = request_id;
    identity = pending.identity;
    role = pending.role;
    action = pending.action;
    resource = pending.resource;
    namespace = pending.namespace;
    params = pending.params;
    risk_level = pending.risk_level;
    risk_score = pending.risk_score;
    risk_reasons = pending.risk_reasons;
    decision = decision;
    opa_reason = some opa_reason;
    error = none;
  }

  -- The audit record and the response of each branch on `body.approved`.
  unfoldable pub approve_pending :
      (request_id : String)
      → ApproveRequest
      → (approver : Value) → PendingRequest
      → Handler ApprovalResponse
  approve_pending request_id body approver pending = do
    k8s_result ← execute_k8s env pending.action pending.resource pending.namespace pending.params
    log env (
        resolved_record pending Audit.human_allow
          ("Human approved by " <> shown approver <> ". Reason: " <> or_text body.reason "none")
          request_id)
    lift (
        ok (record {
          request_id = request_id;
          decision = Audit.human_allow;
          approver = approver;
          message = "Approved by " <> shown approver <> " and executed on Kubernetes.";
          result = some k8s_result;
        }))

  unfoldable pub reject_pending :
      (request_id : String)
      → ApproveRequest
      → (approver : Value) → PendingRequest
      → Handler ApprovalResponse
  reject_pending request_id body approver pending = do
    log env (
        resolved_record pending Audit.human_deny
          ("Human denied by " <> shown approver <> ". Reason: " <> or_text body.reason "none")
          request_id)
    lift (
        ok (record {
          request_id = request_id;
          decision = Audit.human_deny;
          approver = approver;
          message =
              "Denied by "
              <> shown approver
              <> ". Reason: "
              <> or_text body.reason "no reason provided";
          result = none;
        }))

  unfoldable pub decide :
      (request_id : String)
      → ApproveRequest
      → (approver : Value) → PendingRequest
      → Handler ApprovalResponse
  decide request_id body approver pending =
      if body.approved
      then approve_pending request_id body approver pending
      else reject_pending request_id body approver pending

  unfoldable pub found_or_404 :
      (request_id : String)
      → ApproveRequest
      → (approver : Value) → Option PendingRequest
      → Handler ApprovalResponse
  found_or_404 request_id body approver none =
      lift (raise (http_exception 404 (str "No pending request found")))
  found_or_404 request_id body approver (some pending) = decide request_id body approver pending

  unfoldable pub approve_action :
      (token request_id : String) → ApproveRequest → Handler ApprovalResponse
  approve_action token request_id body = do
    payload ← authenticate env token
    pending ← resolve env request_id
    found_or_404 request_id body (get_or null "sub" payload) pending

  unfoldable pub health : Handler (List (String × String))
  health = lift (ok (("status", "ok") ∷ []))
