-- ===== src/Gateway/Settling.antt =====
-- `agent_action` of app/main.py: what each branch of stages 4 and 5 does to the world.
use ai_k8s_gateway.Base.{
  ℕ, suc, String, ◌≡◌, refl, ◌≢◌, Bool, true, false, some, if◌then◌else◌, subst,
}
use ai_k8s_gateway.Errors.{Exception, Result, ok, raise, ◌>>=◌ as ◌>>=ʳ◌, bind-eq-ok, ok-injective}
use ai_k8s_gateway.Value.{Value, null, Params, get_or}
use ai_k8s_gateway.Risk.{RiskScore, RiskLevel, low, medium, high, score}
use ai_k8s_gateway.Approval
use ai_k8s_gateway.Audit
use ai_k8s_gateway.Audit.{AuditRecord, AuditLog, Decision}
use ai_k8s_gateway.Cluster.{Trace}
use ai_k8s_gateway.K8s.{execute_action}
use ai_k8s_gateway.Gateway.Defs.{
  Env, World, continue, ◌>>=◌, lift, sample, log, execute_k8s, after_k8s, AgentActionRequest,
  AgentActionResponse, status_of,
}
use ai_k8s_gateway.Gateway.Handlers.{
  Assessment, opa_decision, assess, audit_of, pending_of, response_of, deny, enqueue, enqueue_high,
  execute_now, is_high, settle,
}

-- The parts of an assessment that was reached.
pub record IsAssessed (env : Env) (tick : ℕ) (id : String) (p : Params) (body : AgentActionRequest)
    (a : Assessment) : Type 0 where
  pub scored :
      score env.py env.settings body.action body.resource body.namespace (some body.params)
      ≡ ok a.risk
  pub decided : opa_decision env tick p body a.risk ≡ ok (a.allowed, a.opa_reason)
  pub of_request : a.request ≡ body
  pub of_id : a.request_id ≡ id
  pub of_identity : a.identity ≡ get_or null "sub" p
  pub of_role : a.role ≡ get_or null "role" p

module _ (env : Env) (tick : ℕ) (id : String) (p : Params) (body : AgentActionRequest) where
  abbrev finished : RiskScore → Bool × String → Assessment
  finished rs d = record {
    request_id = id;
    identity = get_or null "sub" p;
    role = get_or null "role" p;
    request = body;
    risk = rs;
    allowed = d.0;
    opa_reason = d.1;
  }

  pub assess-IsAssessed :
      (a : Assessment) → assess env tick id p body ≡ ok a → IsAssessed env tick id p body a
  unfolding assess
  assess-IsAssessed a e =
      let (rs, scored, rest) =
        bind-eq-ok
          (score env.py env.settings body.action body.resource body.namespace (some body.params))
          (λ rs. opa_decision env tick p body rs >>=ʳ λ d. ok (finished rs d)) e in
      let (d, decided, same) =
        bind-eq-ok (opa_decision env tick p body rs) (λ d. ok (finished rs d)) rest in
      subst (IsAssessed env tick id p body) (ok-injective same) (record {
        scored = scored;
        decided = decided;
        of_request = refl;
        of_id = refl;
        of_identity = refl;
        of_role = refl;
      })

module _ (env : Env) (a : Assessment) where
  -- The audit log with one more record, if the file can be written.
  abbrev pub audited : Decision → World → AuditLog
  audited decision w =
      Audit.log (env.writable w.tick) (audit_of env a decision (env.isoformat w.tick)) w.audit

  -- Denied: a 403, one audit record, nothing else.
  pub record IsDenied (w : World) (o : Result AgentActionResponse × World) : Type 0 where
    pub refused : status_of o.0 ≡ 403
    pub audit : o.1.audit ≡ audited Audit.deny w
    pub queue : o.1.queue ≡ w.queue
    pub trace : o.1.trace ≡ w.trace

  pub deny-IsDenied : (w : World) → IsDenied w (deny env a w)
  unfolding deny ◌>>=◌ lift log
  deny-IsDenied w = record { refused = refl; audit = refl; queue = refl; trace = refl }

  -- Queued: the request waits under its id, one audit record, no call of the cluster.
  pub record IsQueued (w : World) (o : Result AgentActionResponse × World) : Type 0 where
    pub response : AgentActionResponse
    pub answered : o.0 ≡ ok response
    pub of_id : response.request_id ≡ a.request_id
    pub decided : response.decision ≡ Audit.pending_approval
    pub audit : o.1.audit ≡ audited Audit.pending_approval (record w { tick = suc w.tick })
    pub queue : o.1.queue ≡ (Approval.enqueue (pending_of env a (env.isoformat w.tick)) w.queue).1
    pub trace : o.1.trace ≡ w.trace

  pub enqueue_high-IsQueued : (w : World) → IsQueued w (enqueue_high env a w)
  unfolding enqueue_high enqueue ◌>>=◌ lift log sample response_of
  enqueue_high-IsQueued w = record {
    response = _;
    answered = refl;
    of_id = refl;
    decided = refl;
    audit = refl;
    queue = refl;
    trace = refl;
  }

  -- The run of the action on the cluster.
  abbrev pub executed : World → Result Value × Trace
  executed w =
      execute_action env.py env.cluster a.request.action a.request.resource a.request.namespace
        a.request.params w.trace

  abbrev pub outcome_at : World → Result Value
  outcome_at w =
      after_k8s a.request.action a.request.resource a.request.namespace a.request.params
        (executed w).0

  -- Executed: an answer with one audit record, or an exception with none. The calls that were made
  -- stay made in both cases.
  pub data Executed (w : World) : Result AgentActionResponse × World → Type 0 where
    answered :
        (response : AgentActionResponse) (result : Value)
        → outcome_at w ≡ ok result
        → response.result ≡ some result
        → response.request_id ≡ a.request_id
        → response.decision ≡ Audit.allow
        → Executed w (
          ok response,
          record w { tick = suc w.tick; audit = audited Audit.allow w; trace = (executed w).1 },
        )
    failed :
        (e : Exception)
        → outcome_at w ≡ raise e
        → Executed w (raise e, record w { trace = (executed w).1 })

  after_execution :
      (w : World) (r : Result Value)
      → outcome_at w ≡ r
      → Executed w (
          continue r
            (λ v. log env (audit_of env a Audit.allow) >>= λ _. lift (
              ok (
                response_of env a Audit.allow
                  "Action evaluated, approved, and executed on Kubernetes."
                  (some v))))
            (record w { trace = (executed w).1 }))
  unfolding ◌>>=◌ lift log response_of
  after_execution w (ok v) ran = answered _ v ran refl refl refl
  after_execution w (raise e) ran = failed e ran

  pub execute_now-Executed : (w : World) → Executed w (execute_now env a w)
  unfolding execute_now execute_k8s ◌>>=◌
  execute_now-Executed w = after_execution w (outcome_at w) refl

  -- The three ways to settle a request.
  pub data Settled (w : World) : Result AgentActionResponse × World → Type 0 where
    denying : a.allowed ≡ false → IsDenied w (deny env a w) → Settled w (deny env a w)
    queueing :
        a.allowed ≡ true
        → a.risk.level ≡ high
        → IsQueued w (enqueue_high env a w)
        → Settled w (enqueue_high env a w)
    executing :
        a.allowed ≡ true
        → a.risk.level ≢ high
        → Executed w (execute_now env a w)
        → Settled w (execute_now env a w)

  settle_by :
      (w : World) (b : Bool) (l : RiskLevel)
      → a.allowed ≡ b
      → a.risk.level ≡ l
      → Settled w (
          (if b
              then (if is_high env l then enqueue_high env a else execute_now env a)
              else deny env a)
            w)
  settle_by w false l eb el = denying eb (deny-IsDenied w)
  settle_by w true high eb el = queueing eb el (enqueue_high-IsQueued w)
  settle_by w true low eb el = executing eb (λ e. cc) (execute_now-Executed w)
  settle_by w true medium eb el = executing eb (λ e. cc) (execute_now-Executed w)

  -- Stages 4 and 5 do one of three things. A request that is not allowed is denied: status
  -- 403, one audit record, queue and cluster untouched. An allowed request of level high is
  -- queued under its id with one audit record, and the cluster is untouched. An allowed
  -- request of another level is executed: it is answered with the decision "allow" and one
  -- audit record, or it ends in an exception with none.
  pub settle-Settled : (w : World) → Settled w (settle env a w)
  unfolding settle
  settle-Settled w = settle_by w a.allowed a.risk.level refl refl
