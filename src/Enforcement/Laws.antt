-- ===== src/Enforcement/Laws.antt =====
-- app/main.py: `agent_action` carries out the verdict, stage by stage.
use ai_k8s_gateway.Base.{ℕ, suc, String, ◌≡◌, refl, Bool, true, false, some, ap, ◌∙◌, if◌then◌else◌}
use ai_k8s_gateway.Errors.{Result, ok, raise, ◌>>=◌ as ◌>>=ʳ◌}
use ai_k8s_gateway.Value.{Value, null, Params, get_or}
use ai_k8s_gateway.Auth.{verify_token}
use ai_k8s_gateway.Risk.{RiskScore, RiskLevel, low, medium, high, score}
use ai_k8s_gateway.Policy.{OpaInput, PolicyReason, allow, reason}
use ai_k8s_gateway.Opa.{policy_sidecar, query_opa, read_reply}
use ai_k8s_gateway.Opa.Laws.{read_reply-policy}
use ai_k8s_gateway.Audit
use ai_k8s_gateway.Gateway.{
  Env, World, continue, AgentActionRequest, AgentActionResponse, Assessment, opa_decision, audit_of,
  settle, deny, enqueue_high, execute_now, is_high, agent_action, ◌>>=◌, lift, sample, log,
  authenticate, execute_k8s, assess, response_of,
}
use ai_k8s_gateway.Gateway.Stages.{reached}
use ai_k8s_gateway.Gateway.Settling.{enqueue_high-IsQueued}
use ai_k8s_gateway.Enforcement.{
  Verdict, denied, queued, run, question, judge_scored, judge, verdict, answered_by, run_of,
  outcome, Enforces, refusing, denying, queueing, running, failing,
}

module _ (env : Env) (render : PolicyReason → String) (more : Params) (token : String)
    (body : AgentActionRequest) (w : World)
    (shipped : (tick : ℕ) (url : String) (input : OpaInput)
      → env.opa tick url input ≡ policy_sidecar render more url input) where
  abbrev Carried : Result AgentActionResponse × World → Verdict → Type 0
  Carried = Enforces env render token body w

  opa_decision-policy :
      (tick : ℕ) (p : Params) (rs : RiskScore)
      → opa_decision env tick p body rs
        ≡ ok (allow (question env body p rs), render (reason (question env body p rs)))
  unfolding opa_decision query_opa
  opa_decision-policy tick p rs =
      ap (read_reply env.py) (shipped tick _ (question env body p rs))
      ∙ read_reply-policy env.py render more _ (question env body p rs)

  module _ (p : Params) (rs : RiskScore) where
    abbrev assessment : Assessment
    assessment = answered_by env render token body w p rs

    after_run :
        (r : Result Value)
        → outcome env render token body w ≡ r
        → Carried
            (continue r
              (λ v. log env (audit_of env assessment Audit.allow) >>= λ _. lift (
                ok (
                  response_of env assessment Audit.allow
                    "Action evaluated, approved, and executed on Kubernetes."
                    (some v))))
              (record (reached w) { trace = (run_of env render token body w).1 }))
            (run p rs)
    unfolding ◌>>=◌ lift log response_of
    after_run (ok v) e = running p rs v _ e refl refl refl refl refl refl
    after_run (raise x) e = failing p rs x e refl refl refl refl

    execute_now-Enforces : Carried (execute_now env assessment (reached w)) (run p rs)
    unfolding execute_now execute_k8s ◌>>=◌
    execute_now-Enforces = after_run (outcome env render token body w) refl

    deny-Enforces : Carried (deny env assessment (reached w)) (denied p rs)
    unfolding deny ◌>>=◌ lift log
    deny-Enforces = denying p rs refl refl refl refl

    settle_by :
        (b : Bool) (l : RiskLevel)
        → Carried
            ((if b
                then (if is_high env l
                    then enqueue_high env assessment
                    else execute_now env assessment)
                else deny env assessment)
              (reached w))
            (if b then (if is_high env l then queued p rs else run p rs) else denied p rs)
    settle_by false l = deny-Enforces
    settle_by true high = queueing p rs (enqueue_high-IsQueued env assessment (reached w))
    settle_by true low = execute_now-Enforces
    settle_by true medium = execute_now-Enforces

    settle-Enforces : Carried (settle env assessment (reached w)) (judge_scored env body p (ok rs))
    unfolding settle judge_scored
    settle-Enforces = settle_by (allow (question env body p rs)) rs.level

  after_score :
      (p : Params) (s : Result RiskScore)
      → Carried
          ((lift (
                s >>=ʳ λ rs. opa_decision env (suc (suc w.tick)) p body rs >>=ʳ λ d. ok (record {
                  request_id = env.uuid w.tick;
                  identity = get_or null "sub" p;
                  role = get_or null "role" p;
                  request = body;
                  risk = rs;
                  allowed = d.0;
                  opa_reason = d.1;
                }))
              >>= settle env)
            (reached w))
          (judge_scored env body p s)
  unfolding ◌>>=◌ lift judge_scored
  after_score p (ok rs) = rw (opa_decision-policy (suc (suc w.tick)) p rs) (settle-Enforces p rs)
  after_score p (raise e) = refusing e refl (record { queue = refl; audit = refl; trace = refl })

  after_token :
      (v : Result Params)
      → Carried
          (continue v
            (λ p. sample (λ tick. assess env tick (env.uuid w.tick) p body) >>= λ assessed.
              lift assessed >>= settle env)
            (record w { tick = suc (suc w.tick) }))
          (judge env body v)
  unfolding ◌>>=◌ sample assess judge
  after_token (ok p) =
      after_score p
        (score env.py env.settings body.action body.resource body.namespace (some body.params))
  after_token (raise e) = refusing e refl (record { queue = refl; audit = refl; trace = refl })

  -- With a sidecar that runs the shipped policy, a call of /agent-action carries out the
  -- verdict of a specification that only asks the verifier, the scorer and the policy. Their
  -- exceptions are raised with the state kept; what the policy denies is answered with status
  -- 403, the policy's reason and one record "deny", with queue and cluster untouched; what it
  -- allows is queued if its level is high, and otherwise run, with the result and one record
  -- "allow", or with the exception that the run came to.
  pub agent_action-Enforces :
      Enforces env render token body w
        (agent_action env token body w)
        (verdict env render token body w)
  unfolding agent_action authenticate ◌>>=◌ lift sample
  agent_action-Enforces =
      after_token (verify_token env.jwt env.settings (env.seconds (suc w.tick)) token)
