-- ===== src/Gateway/Auditing.antt =====
-- `agent_action` of app/main.py: which requests the audit log records.
use ai_k8s_gateway.Base.{suc, String, ◌≡◌, ◌≢◌, refl, Bool, true, false, some, ap, ◌∙◌}
use ai_k8s_gateway.Errors.{Exception, Result, ok, raise}
use ai_k8s_gateway.Value.{null, Params, get_or}
use ai_k8s_gateway.Risk.{score, high}
use ai_k8s_gateway.Audit
use ai_k8s_gateway.Audit.{AuditRecord, AuditLog, Decision}
use ai_k8s_gateway.Gateway.Defs.{Env, World, AgentActionRequest, AgentActionResponse, status_of}
use ai_k8s_gateway.Gateway.Handlers.{Assessment, audit_of, is_high, agent_action}
use ai_k8s_gateway.Gateway.Stages.{
  reached, verified, assessed, StopsWith, Staged, stopped, settled, agent_action-Staged,
}
use ai_k8s_gateway.Gateway.Settling.{
  IsAssessed, assess-IsAssessed, Executed, answered, failed, Settled, denying, queueing, executing,
  settle-Settled, outcome_at,
}

module _ (env : Env) (token : String) (body : AgentActionRequest) (w : World) where
  -- One record was written, or its warning: with this decision, the request's own id and fields, the
  -- identity and the role of its verified token, and the score that the scorer gives for it.
  pub record IsRecorded (decision : Decision) (after : AuditLog) : Type 0 where
    pub entry : AuditRecord
    pub writable : Bool
    pub written : after ≡ Audit.log writable entry w.audit
    pub of_id : entry.request_id ≡ env.uuid w.tick
    pub with_decision : entry.decision ≡ decision
    pub payload : Params
    pub authentic : verified env token body w ≡ ok payload
    pub of_identity : entry.identity ≡ get_or null "sub" payload
    pub of_role : entry.role ≡ get_or null "role" payload
    pub of_action : entry.action ≡ body.action
    pub of_resource : entry.resource ≡ body.resource
    pub of_namespace : entry.namespace ≡ body.namespace
    pub with_params : entry.params ≡ body.params
    pub scored :
        score env.py env.settings body.action body.resource body.namespace (some body.params)
        ≡ ok (record {
          level = entry.risk_level;
          score = entry.risk_score;
          reasons = entry.risk_reasons;
        })

  -- How an outcome is audited. A policy denial is a 403 with a "deny" record; an answer has a record
  -- with the decision and the id that it carries; an exception of the first three stages, or of the run of
  -- an allowed request below high, has no record.
  pub data IsAudited : Result AgentActionResponse × World → Type 0 where
    denied :
        (o : Result AgentActionResponse × World) (p : Params) (a : Assessment)
        → verified env token body w ≡ ok p
        → assessed env token body w p ≡ ok a
        → a.allowed ≡ false
        → status_of o.0 ≡ 403
        → IsRecorded Audit.deny o.1.audit
        → IsAudited o
    responded :
        (o : Result AgentActionResponse × World) (response : AgentActionResponse)
        → o.0 ≡ ok response
        → response.request_id ≡ env.uuid w.tick
        → IsRecorded response.decision o.1.audit
        → IsAudited o
    unreached :
        (e : Exception) (w' : World)
        → StopsWith env token body w e
        → w'.audit ≡ w.audit
        → IsAudited (raise e, w')
    broken :
        (e : Exception) (w' : World) (p : Params) (a : Assessment)
        → verified env token body w ≡ ok p
        → assessed env token body w p ≡ ok a
        → a.allowed ≡ true
        → a.risk.level ≢ high
        → outcome_at env a (reached w) ≡ raise e
        → w'.audit ≡ w.audit
        → IsAudited (raise e, w')

  recorded :
      (p : Params) (a : Assessment) (decision : Decision) (writable : Bool) (timestamp : String)
      (after : AuditLog)
      → verified env token body w ≡ ok p
      → IsAssessed env (suc (suc w.tick)) (env.uuid w.tick) p body a
      → after ≡ Audit.log writable (audit_of env a decision timestamp) w.audit
      → IsRecorded decision after
  unfolding audit_of
  recorded p a decision writable timestamp after v h e = record {
    entry = audit_of env a decision timestamp;
    writable = writable;
    written = e;
    of_id = h.of_id;
    with_decision = refl;
    payload = p;
    authentic = v;
    of_identity = h.of_identity;
    of_role = h.of_role;
    of_action = ap (λ (r : AgentActionRequest). r.action) h.of_request;
    of_resource = ap (λ (r : AgentActionRequest). r.resource) h.of_request;
    of_namespace = ap (λ (r : AgentActionRequest). r.namespace) h.of_request;
    with_params = ap (λ (r : AgentActionRequest). r.params) h.of_request;
    scored = h.scored;
  }

  parts :
      (p : Params) (a : Assessment)
      → assessed env token body w p ≡ ok a
      → IsAssessed env (suc (suc w.tick)) (env.uuid w.tick) p body a
  parts p a e = assess-IsAssessed env (suc (suc w.tick)) (env.uuid w.tick) p body a e

  Settled-IsAudited :
      (p : Params) (a : Assessment) {o : Result AgentActionResponse × World}
      → verified env token body w ≡ ok p
      → assessed env token body w p ≡ ok a
      → Settled env a (reached w) o
      → IsAudited o
  Settled-IsAudited p a {o} v e (denying barred d) =
      denied _ p a v e barred d.refused (recorded p a Audit.deny _ _ _ v (parts p a e) d.audit)
  Settled-IsAudited p a {o} v e (queueing granted is_high q) =
      responded _ q.response q.answered (q.of_id ∙ (parts p a e).of_id)
        (rw q.decided (recorded p a Audit.pending_approval _ _ _ v (parts p a e) q.audit))
  Settled-IsAudited p a v e (executing granted below x) = executed-IsAudited x
    where
      executed-IsAudited :
          {o : Result AgentActionResponse × World} → Executed env a (reached w) o → IsAudited o
      executed-IsAudited (answered response result ran with_result same decided) =
          responded _ response refl (same ∙ (parts p a e).of_id)
            (rw decided (recorded p a Audit.allow _ _ _ v (parts p a e) refl))
      executed-IsAudited (failed x ran) = broken x _ p a v e granted below ran refl

  Staged-IsAudited :
      {o : Result AgentActionResponse × World} → Staged env token body w o → IsAudited o
  Staged-IsAudited (stopped e w' why same) = unreached e w' why same.audit
  Staged-IsAudited (settled p a v e) = Settled-IsAudited p a v e (settle-Settled env a (reached w))

  -- A call of /agent-action ends in one of four ways. Its token verified, its assessment is
  -- that it is not allowed, and it ends with status 403 and one audit record "deny"; or it is
  -- answered, with the request's fresh id and one audit record that carries the answer's
  -- decision; or it ends in the exception of the token's verification or of the assessment,
  -- and leaves the audit log as it was; or it is allowed and below high, ends in the exception
  -- of its run, and leaves the audit log as it was. A record (or the warning in its place,
  -- where the file cannot be written) has the request's id, verb, resource, namespace and
  -- parameters, the identity and the role of the verified token, and the score that the scorer
  -- gives for the request.
  pub agent_action-IsAudited : IsAudited (agent_action env token body w)
  agent_action-IsAudited = Staged-IsAudited (agent_action-Staged env token body w)
