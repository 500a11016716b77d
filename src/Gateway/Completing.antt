-- ===== src/Gateway/Completing.antt =====
-- `approve_action` of app/main.py: what an approval comes to when its run succeeds.
use ai_k8s_gateway.Base.{String, ◌≡◌, refl, true, some, ◌∙◌, subst, sym}
use ai_k8s_gateway.Errors.{Result, ok}
use ai_k8s_gateway.Value.{Value, null, Params, get_or}
use ai_k8s_gateway.Approval
use ai_k8s_gateway.Approval.{PendingRequest, ApprovalQueue}
use ai_k8s_gateway.Audit
use ai_k8s_gateway.Audit.{AuditLog}
use ai_k8s_gateway.Gateway.Defs.{
  Env, World, Handler, continue, ◌>>=◌, lift, log, execute_k8s, after_k8s,
}
use ai_k8s_gateway.Gateway.HumanHandlers.{
  ApprovalResponse, ApproveRequest, resolved_record, approve_pending, approve_action,
}
use ai_k8s_gateway.Gateway.Approving.{approver_of, taken}
use ai_k8s_gateway.Gateway.Lost.{outcome_of, decide-approved, approve_action-found}

module _ (env : Env) (id : String) (body : ApproveRequest) (r : PendingRequest) where
  -- The caller gets the result, and one record tells of the approval.
  pub record IsCompleted (result : Value) (w : World) (o : Result ApprovalResponse × World)
      : Type 0 where
    pub response : ApprovalResponse
    pub answered : o.0 ≡ ok response
    pub of_id : response.request_id ≡ id
    pub decided : response.decision ≡ Audit.human_allow
    pub with_result : response.result ≡ some result
    pub told : String
    pub audit :
        o.1.audit
        ≡ Audit.log
            (env.writable w.tick)
            (resolved_record env r Audit.human_allow told id (env.isoformat w.tick))
            w.audit
    pub trace : o.1.trace ≡ (outcome_of env id body r w).1
    pub queue : o.1.queue ≡ w.queue

  continue-IsCompleted :
      (result : Value) (w w' : World) (v : Result Value) (f : Value → Handler ApprovalResponse)
      → v ≡ ok result
      → IsCompleted result w (f result w')
      → IsCompleted result w (continue v f w')
  continue-IsCompleted result w w' v f e h =
      subst (λ v. IsCompleted result w (continue v f w')) (sym e) h

  approve_pending-IsCompleted :
      (approver result : Value) (w : World)
      → after_k8s r.action r.resource r.namespace r.params (outcome_of env id body r w).0
        ≡ ok result
      → IsCompleted result w (approve_pending env id body approver r w)
  unfolding approve_pending execute_k8s ◌>>=◌ lift log
  approve_pending-IsCompleted approver result w ran =
      continue-IsCompleted result w (record w { trace = (outcome_of env id body r w).1 })
        (after_k8s r.action r.resource r.namespace r.params (outcome_of env id body r w).0) _ ran
        (record {
          response = _;
          answered = refl;
          of_id = refl;
          decided = refl;
          with_result = refl;
          told = _;
          audit = refl;
          trace = refl;
          queue = refl;
        })

  -- If the token verifies, the body approves, a request waits under the id, and the outcome of
  -- its run is read as a result, then a call of /approve/{id} answers with that id, the
  -- decision "human-allow" and the result, adds one audit record of that decision, leaves the
  -- trace of the run, and leaves the queue with only the id taken out.
  pub approve_action-IsCompleted :
      (token : String) (w : World) (p : Params) (result : Value)
      → approver_of env token id body w ≡ ok p
      → Approval.peek id w.queue ≡ some r
      → body.approved ≡ true
      → after_k8s r.action r.resource r.namespace r.params (outcome_of env id body r w).0
        ≡ ok result
      → IsCompleted result (taken id w) (approve_action env token id body w)
  approve_action-IsCompleted token w p result v waited granted ran =
      subst (IsCompleted result (taken id w))
        (sym (
          approve_action-found env id body r token w p v waited
          ∙ decide-approved env id body r (get_or null "sub" p) (taken id w) granted))
        (approve_pending-IsCompleted (get_or null "sub" p) result (taken id w) ran)
