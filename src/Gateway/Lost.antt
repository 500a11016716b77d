-- ===== src/Gateway/Lost.antt =====
-- `approve_action` of app/main.py: what becomes of a queued request whose approved run raises.
use ai_k8s_gateway.Base.{String, ◌≡◌, true, some, none, ap, ◌∙◌, if◌then◌else◌}
use ai_k8s_gateway.Errors.{Exception, Result, ok, raise}
use ai_k8s_gateway.Value.{Value, null, Params, get_or}
use ai_k8s_gateway.Approval
use ai_k8s_gateway.Approval.{PendingRequest, ApprovalQueue}
use ai_k8s_gateway.Approval.Laws.{IsValid, resolve-peek}
use ai_k8s_gateway.Cluster.{Trace}
use ai_k8s_gateway.K8s.{execute_action}
use ai_k8s_gateway.Gateway.Defs.{
  Env, World, Handler, continue, ◌>>=◌, lift, sample, execute_k8s, after_k8s,
}
use ai_k8s_gateway.Gateway.Handlers.{authenticate, resolve}
use ai_k8s_gateway.Gateway.HumanHandlers.{
  ApproveRequest, approve_pending, reject_pending, decide, found_or_404, approve_action,
}
use ai_k8s_gateway.Gateway.Approving.{ticked, taken, approver_of}
use ai_k8s_gateway.Gateway.Approvals.{resolved_free}

bind-raise :
    {A B : Type 0} (m : Handler A) (f : A → Handler B) {w w' : World} {e : Exception}
    → m w ≡ (raise e, w')
    → (m >>= f) w ≡ (raise e, w')
unfolding ◌>>=◌
bind-raise m f same = ap (λ o. continue o.0 f o.1) same

module _ (env : Env) (id : String) (body : ApproveRequest) (r : PendingRequest) where
  -- What the Kubernetes client returns for the request in the world `w`, and the trace it leaves.
  abbrev pub outcome_of : World → Result Value × Trace
  outcome_of w = execute_action env.py env.cluster r.action r.resource r.namespace r.params w.trace

  execute_k8s-raise :
      (w : World) (e : Exception)
      → after_k8s r.action r.resource r.namespace r.params (outcome_of w).0 ≡ raise e
      → execute_k8s env r.action r.resource r.namespace r.params w
        ≡ (raise e, record w { trace = (outcome_of w).1 })
  unfolding execute_k8s
  execute_k8s-raise w e raised = ap (λ v. (v, record w { trace = (outcome_of w).1 })) raised

  approve_pending-raise :
      (approver : Value) (w : World) (e : Exception)
      → after_k8s r.action r.resource r.namespace r.params (outcome_of w).0 ≡ raise e
      → approve_pending env id body approver r w ≡ (raise e, record w { trace = (outcome_of w).1 })
  unfolding approve_pending
  approve_pending-raise approver w e raised =
      bind-raise (execute_k8s env r.action r.resource r.namespace r.params) _
        (execute_k8s-raise w e raised)

  pub decide-approved :
      (approver : Value) (w : World)
      → body.approved ≡ true
      → decide env id body approver r w ≡ approve_pending env id body approver r w
  unfolding decide
  decide-approved approver w granted =
      ap
        (λ b.
          (if b
              then approve_pending env id body approver r
              else reject_pending env id body approver r)
            w)
        granted

  pub approve_action-found :
      (token : String) (w : World) (p : Params)
      → approver_of env token id body w ≡ ok p
      → Approval.peek id w.queue ≡ some r
      → approve_action env token id body w ≡ decide env id body (get_or null "sub" p) r (taken id w)
  unfolding approve_action authenticate found_or_404 resolve ◌>>=◌ lift sample
  approve_action-found token w p v waited =
      ap
        (λ v.
          continue v (λ p. resolve env id >>= λ o. found_or_404 env id body (get_or null "sub" p) o)
            (ticked w))
        v
      ∙ ap (λ o. found_or_404 env id body (get_or null "sub" p) o (taken id w))
          (resolve-peek id w.queue ∙ waited)

-- If the queue is valid, the token verifies, the body approves, a request waits under the id,
-- and the outcome of its run is read as an exception, then a call of /approve/{id} ends in that
-- exception, nothing waits under the id any more, the audit log is as it was, and the trace is
-- the one that the run left.
pub approve_action_lost :
    (env : Env) (token id : String) (body : ApproveRequest) (w : World) (p : Params)
    (r : PendingRequest) (e : Exception)
    → IsValid w.queue
    → approver_of env token id body w ≡ ok p
    → Approval.peek id w.queue ≡ some r
    → body.approved ≡ true
    → after_k8s r.action r.resource r.namespace r.params (outcome_of env id body r w).0 ≡ raise e
    → let o = approve_action env token id body w in
      (o.0 ≡ raise e)
      × (Approval.peek id o.1.queue ≡ none)
      × (o.1.audit ≡ w.audit)
      × (o.1.trace ≡ (outcome_of env id body r w).1)
approve_action_lost env token id body w p r e h v waited granted raised =
    let same =
      approve_action-found env id body r token w p v waited
      ∙ decide-approved env id body r (get_or null "sub" p) (taken id w) granted
      ∙ approve_pending-raise env id body r (get_or null "sub" p) (taken id w) e raised in
    (
      ap (λ o. o.0) same,
      ap (λ o. Approval.peek id o.1.queue) same ∙ resolved_free id h,
      ap (λ o. o.1.audit) same,
      ap (λ o. o.1.trace) same,
    )
