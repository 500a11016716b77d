-- ===== src/Enforcement.antt =====
-- The gateway as a reference monitor: `agent_action` of app/main.py with the shipped policy
-- (policies/agent_actions.rego) behind the sidecar, against a specification that names the verifier, the
-- scorer and the policy only.
pub mod Laws
pub mod Denials
pub mod Lifecycle
use ai_k8s_gateway.Base.{
  ℕ, suc, String, ◌≡◌, refl, Bool, true, false, Option, some, none, List, [], ◌∷◌, ap, ◌∙◌,
  if◌then◌else◌,
}
use ai_k8s_gateway.Errors.{Exception, http_exception, Result, ok, raise}
use ai_k8s_gateway.Value.{Value, null, str, dict, Params, get_or}
use ai_k8s_gateway.Auth.{verify_token}
use ai_k8s_gateway.Risk.{RiskScore, RiskLevel, low, medium, high, level_text, score}
use ai_k8s_gateway.Policy.{OpaInput, PolicyReason, allow, reason}
use ai_k8s_gateway.Opa.{opa_input, policy_sidecar, query_opa}
use ai_k8s_gateway.Opa.Laws.{read_reply-policy}
use ai_k8s_gateway.Approval
use ai_k8s_gateway.Audit
use ai_k8s_gateway.Cluster.{Trace}
use ai_k8s_gateway.K8s.{execute_action}
use ai_k8s_gateway.Gateway.{
  Env, World, Handler, continue, AgentActionRequest, AgentActionResponse, Assessment, opa_decision,
  audit_of, pending_of, settle, deny, enqueue_high, execute_now, is_high, agent_action, after_k8s,
  ◌>>=◌, lift, sample, log, authenticate, execute_k8s, assess, response_of,
}
use ai_k8s_gateway.Gateway.Stages.{SameState, reached}
use ai_k8s_gateway.Gateway.Settling.{audited, executed, IsQueued, enqueue_high-IsQueued}

-- What is decided about a request. A refusal is an exception of the verifier or of the scorer.
pub data Verdict : Type 0 where
  refused : Exception → Verdict
  denied queued run : Params → RiskScore → Verdict

module _ (env : Env) (body : AgentActionRequest) where
  -- The question to the policy.
  abbrev pub question : Params → RiskScore → OpaInput
  question p rs =
      opa_input env.py (get_or null "sub" p) (get_or null "role" p) body.action body.resource
        body.namespace rs.level body.params

  unfoldable pub judge_scored : Params → Result RiskScore → Verdict
  judge_scored p (raise e) = refused e
  judge_scored p (ok rs) =
      if allow (question p rs)
      then (if is_high env rs.level then queued p rs else run p rs)
      else denied p rs

  -- The specification.
  unfoldable pub judge : Result Params → Verdict
  judge (raise e) = refused e
  judge (ok p) =
      judge_scored p
        (score env.py env.settings body.action body.resource body.namespace (some body.params))

module _ (env : Env) (render : PolicyReason → String) (token : String) (body : AgentActionRequest)
    (w : World) where
  abbrev pub verdict : Verdict
  verdict = judge env body (verify_token env.jwt env.settings (env.seconds (suc w.tick)) token)

  -- The assessment with the policy's answer.
  abbrev pub answered_by : Params → RiskScore → Assessment
  answered_by p rs = record {
    request_id = env.uuid w.tick;
    identity = get_or null "sub" p;
    role = get_or null "role" p;
    request = body;
    risk = rs;
    allowed = allow (question env body p rs);
    opa_reason = render (reason (question env body p rs));
  }

  -- The call of the Kubernetes client, and the gateway's reading of its outcome.
  abbrev pub run_of : Result Value × Trace
  run_of =
      execute_action env.py env.cluster body.action body.resource body.namespace body.params w.trace

  abbrev pub outcome : Result Value
  outcome = after_k8s body.action body.resource body.namespace body.params run_of.0

  -- How a verdict is carried out.
  pub data Enforces (o : Result AgentActionResponse × World) : Verdict → Type 0 where
    refusing : (e : Exception) → o.0 ≡ raise e → SameState w o.1 → Enforces o (refused e)
    denying :
        (p : Params) (rs : RiskScore)
        → o.0
          ≡ raise (
              http_exception 403 (
                dict (
                  ("request_id", str (env.uuid w.tick))
                  ∷ ("decision", str "deny")
                  ∷ ("reason", str (render (reason (question env body p rs))))
                  ∷ ("risk_level", str (level_text rs.level))
                  ∷ [])))
        → o.1.audit ≡ audited env (answered_by p rs) Audit.deny (reached w)
        → o.1.queue ≡ w.queue
        → o.1.trace ≡ w.trace
        → Enforces o (denied p rs)
    queueing :
        (p : Params) (rs : RiskScore)
        → IsQueued env (answered_by p rs) (reached w) o
        → Enforces o (queued p rs)
    running :
        (p : Params) (rs : RiskScore) (result : Value) (response : AgentActionResponse)
        → outcome ≡ ok result
        → o.0 ≡ ok response
        → response.decision ≡ Audit.allow
        → response.result ≡ some result
        → o.1.audit ≡ audited env (answered_by p rs) Audit.allow (reached w)
        → o.1.queue ≡ w.queue
        → o.1.trace ≡ run_of.1
        → Enforces o (run p rs)
    failing :
        (p : Params) (rs : RiskScore) (e : Exception)
        → outcome ≡ raise e
        → o.0 ≡ raise e
        → o.1.audit ≡ w.audit
        → o.1.queue ≡ w.queue
        → o.1.trace ≡ run_of.1
        → Enforces o (run p rs)
