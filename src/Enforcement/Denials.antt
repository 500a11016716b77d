-- ===== src/Enforcement/Denials.antt =====
-- Requests that the shipped policy bars: the verdict on them, and what `agent_action` of app/main.py does.
use ai_k8s_gateway.Base.{ℕ, suc, String, ◌≡◌, false, some, inl, inr, ap, ◌∙◌, subst, if◌then◌else◌}
use ai_k8s_gateway.Errors.{Result-cases, http_exception, Result, ok, raise}
use ai_k8s_gateway.Value.{Value, Params}
use ai_k8s_gateway.Auth.{verify_token}
use ai_k8s_gateway.Risk.{RiskScore, score}
use ai_k8s_gateway.Risk.Payload.{HasInfiniteReplicas, score-raises_iff}
use ai_k8s_gateway.Policy.{OpaInput, PolicyReason, allow}
use ai_k8s_gateway.Opa.{policy_sidecar}
use ai_k8s_gateway.Audit
use ai_k8s_gateway.Audit.{AuditLog}
use ai_k8s_gateway.Gateway.{
  Env, World, AgentActionRequest, AgentActionResponse, agent_action, is_high,
}
use ai_k8s_gateway.Gateway.Stages.{reached}
use ai_k8s_gateway.Gateway.Settling.{audited}
use ai_k8s_gateway.Enforcement.{
  question, judge, judge_scored, verdict, denied, queued, run, answered_by, Enforces, denying,
}
use ai_k8s_gateway.Enforcement.Laws.{agent_action-Enforces}

-- Whatever the score.
module _ (env : Env) (p : Params) where
  abbrev pub Barred : AgentActionRequest → Type 0
  Barred body = (rs : RiskScore) → allow (question env body p rs) ≡ false

-- No exception comes out of the scorer.
abbrev pub HasFiniteReplicas : AgentActionRequest → Type 0
HasFiniteReplicas body = ¬ (HasInfiniteReplicas body.params)

module _ (env : Env) (render : PolicyReason → String) (token : String) (w : World)
    (p : Params) where
  -- Denied with status 403 and one record, with the queue and the cluster untouched.
  pub record IsDenied (body : AgentActionRequest) (o : Result AgentActionResponse × World)
      : Type 0 where
    pub detail : Value
    pub status : o.0 ≡ raise (http_exception 403 detail)
    pub risk : RiskScore
    pub audit :
        o.1.audit ≡ audited env (answered_by env render token body w p risk) Audit.deny (reached w)
    pub queue : o.1.queue ≡ w.queue
    pub trace : o.1.trace ≡ w.trace

  denied-IsDenied :
      (body : AgentActionRequest) (rs : RiskScore) {o : Result AgentActionResponse × World}
      → Enforces env render token body w o (denied p rs)
      → IsDenied body o
  denied-IsDenied body rs (denying q rs' status audit queue trace) = record {
    detail = _;
    status = status;
    risk = rs;
    audit = audit;
    queue = queue;
    trace = trace;
  }

  module _
      (authentic : verify_token env.jwt env.settings (env.seconds (suc w.tick)) token ≡ ok p) where
    pub verdict-denied :
        (body : AgentActionRequest)
        → Barred env p body
        → HasFiniteReplicas body
        → (rs : RiskScore) × (verdict env render token body w ≡ denied p rs)
    unfolding judge judge_scored
    verdict-denied body barred finite =
        elim (Result-cases
          (score env.py env.settings body.action body.resource body.namespace (some body.params))) [
            | inl (rs, e) ↦ (
              rs,
              ap (judge env body) authentic
                  ∙ ap (judge_scored env body p) e
                  ∙ ap
                      (λ b.
                        if b
                        then (if is_high env rs.level then queued p rs else run p rs)
                        else denied p rs)
                      (barred rs),
            )
            | inr (x, e) ↦ absurd (
                finite
                  ((score-raises_iff env.py env.settings body.action body.resource body.namespace
                      body.params x).0
                    e).2)
          ]

    module _ (more : Params)
        (shipped : (tick : ℕ) (url : String) (input : OpaInput)
          → env.opa tick url input ≡ policy_sidecar render more url input) where
      pub Barred-IsDenied :
          (body : AgentActionRequest)
          → Barred env p body
          → HasFiniteReplicas body
          → IsDenied body (agent_action env token body w)
      Barred-IsDenied body barred finite =
          let (rs, e) = verdict-denied body barred finite in
          denied-IsDenied body rs (
            subst (Enforces env render token body w (agent_action env token body w)) e
              (agent_action-Enforces env render more token body w shipped))
