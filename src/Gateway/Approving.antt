-- ===== src/Gateway/Approving.antt =====
-- `approve_action` of app/main.py: what a call comes to, stage by stage.
use ai_k8s_gateway.Base.{
  suc, String, ◌≡◌, refl, Bool, true, false, Option, some, none, subst, sym, if◌then◌else◌,
}
use ai_k8s_gateway.Errors.{Exception, http_exception, Result, ok, raise}
use ai_k8s_gateway.Value.{Value, null, str, Params, get_or}
use ai_k8s_gateway.Auth.{verify_token}
use ai_k8s_gateway.Approval
use ai_k8s_gateway.Approval.{PendingRequest, ApprovalQueue}
use ai_k8s_gateway.Approval.Laws.{resolve-peek}
use ai_k8s_gateway.Audit
use ai_k8s_gateway.Audit.{AuditRecord, Decision}
use ai_k8s_gateway.Cluster.{Trace}
use ai_k8s_gateway.K8s.{execute_action}
use ai_k8s_gateway.Gateway.Defs.{
  Env, World, Handler, continue, ◌>>=◌, lift, sample, log, execute_k8s, after_k8s,
}
use ai_k8s_gateway.Gateway.Handlers.{authenticate, resolve}
use ai_k8s_gateway.Gateway.HumanHandlers.{
  ApprovalResponse, ApproveRequest, resolved_record, approve_pending, reject_pending, decide,
  found_or_404, approve_action,
}

-- The world after the token was read.
abbrev pub ticked : World → World
ticked w = record w { tick = suc w.tick }

-- The world after the request was taken from the queue.
abbrev pub taken : String → World → World
taken id w = record (ticked w) { queue = (Approval.resolve id w.queue).1 }

module _ (env : Env) (token id : String) (body : ApproveRequest) (w : World) where
  abbrev pub approver_of : Result Params
  approver_of = verify_token env.jwt env.settings (env.seconds w.tick) token

  -- The request is stopped by its token, finds nothing under the id, or is decided.
  pub data Approached : Result ApprovalResponse × World → Type 0 where
    stopped : (e : Exception) → approver_of ≡ raise e → Approached (raise e, ticked w)
    missing :
        (p : Params)
        → approver_of ≡ ok p
        → Approval.peek id w.queue ≡ none
        → Approached (raise (http_exception 404 (str "No pending request found")), taken id w)
    found :
        (p : Params) (r : PendingRequest)
        → approver_of ≡ ok p
        → Approval.peek id w.queue ≡ some r
        → Approached (decide env id body (get_or null "sub" p) r (taken id w))

  after_resolve :
      (p : Params) (o : Option PendingRequest)
      → approver_of ≡ ok p
      → Approval.peek id w.queue ≡ o
      → Approached (found_or_404 env id body (get_or null "sub" p) o (taken id w))
  unfolding found_or_404 lift
  after_resolve p none v e = missing p v e
  after_resolve p (some r) v e = found p r v e

  after_token :
      (r : Result Params)
      → approver_of ≡ r
      → Approached (
          continue r
            (λ p. resolve env id >>= λ o. found_or_404 env id body (get_or null "sub" p) o)
            (ticked w))
  unfolding ◌>>=◌ resolve
  after_token (ok p) v =
      after_resolve p (Approval.resolve id w.queue).0 v (sym (resolve-peek id w.queue))
  after_token (raise e) v = stopped e v

  pub approve_action-Approached : Approached (approve_action env token id body w)
  unfolding approve_action authenticate ◌>>=◌ lift sample
  approve_action-Approached = after_token approver_of refl

-- What a decision does from the world `w`: a rejection writes one record; an approval runs the
-- request, and writes one record unless the run raises.
module _ (env : Env) (id : String) (approver : Value) (r : PendingRequest) (w : World) where
  abbrev pub run : Result Value × Trace
  run = execute_action env.py env.cluster r.action r.resource r.namespace r.params w.trace

  pub record IsLogged (decision : Decision) (o : Result ApprovalResponse × World) : Type 0 where
    pub response : ApprovalResponse
    pub answered : o.0 ≡ ok response
    pub decided : response.decision ≡ decision
    pub reason : String
    pub audit :
        o.1.audit
        ≡ Audit.log
            (env.writable w.tick)
            (resolved_record env r decision reason id (env.isoformat w.tick))
            w.audit

  pub data Decided (body : ApproveRequest) : Result ApprovalResponse × World → Type 0 where
    rejected :
        {o : Result ApprovalResponse × World}
        → body.approved ≡ false
        → o.1.queue ≡ w.queue
        → o.1.trace ≡ w.trace
        → IsLogged Audit.human_deny o
        → Decided body o
    ran :
        {o : Result ApprovalResponse × World}
        → body.approved ≡ true
        → o.1.queue ≡ w.queue
        → o.1.trace ≡ run.1
        → IsLogged Audit.human_allow o
        → Decided body o
    failed :
        {o : Result ApprovalResponse × World} (e : Exception)
        → body.approved ≡ true
        → after_k8s r.action r.resource r.namespace r.params run.0 ≡ raise e
        → o.0 ≡ raise e
        → o.1.queue ≡ w.queue
        → o.1.trace ≡ run.1
        → o.1.audit ≡ w.audit
        → Decided body o

  module _ (body : ApproveRequest) where
    after_run :
        (v : Result Value)
        → after_k8s r.action r.resource r.namespace r.params run.0 ≡ v
        → body.approved ≡ true
        → (f : Value → Handler ApprovalResponse)
        → ((x : Value)
            → (o : Result ApprovalResponse × World) × (f x (record w { trace = run.1 }) ≡ o)
              × IsLogged Audit.human_allow o
              × (o.1.queue ≡ w.queue)
              × (o.1.trace ≡ run.1))
        → Decided body (continue v f (record w { trace = run.1 }))
    after_run (ok x) e granted f h =
        let (o, same, logged, queue, trace) = h x in
        subst (Decided body) (sym same) (ran granted queue trace logged)
    after_run (raise x) e granted f h = failed x granted e refl refl refl refl

    approve_pending-Decided :
        body.approved ≡ true → Decided body (approve_pending env id body approver r w)
    unfolding approve_pending execute_k8s ◌>>=◌ lift log
    approve_pending-Decided granted =
        after_run (after_k8s r.action r.resource r.namespace r.params run.0) refl granted _ λ x. (
          _,
          refl,
          record { response = _; answered = refl; decided = refl; reason = _; audit = refl },
          refl,
          refl,
        )

    reject_pending-Decided :
        body.approved ≡ false → Decided body (reject_pending env id body approver r w)
    unfolding reject_pending ◌>>=◌ lift log
    reject_pending-Decided barred =
        rejected barred refl refl
          (record { response = _; answered = refl; decided = refl; reason = _; audit = refl })

    decide_by :
        (b : Bool)
        → body.approved ≡ b
        → Decided body (
            (if b
                then approve_pending env id body approver r
                else reject_pending env id body approver r)
              w)
    decide_by true e = approve_pending-Decided e
    decide_by false e = reject_pending-Decided e

    pub decide-Decided : Decided body (decide env id body approver r w)
    unfolding decide
    decide-Decided = decide_by body.approved refl
