-- ===== src/Gateway/Approvals.antt =====
-- `approve_action` of app/main.py: what a call does to the cluster and to the queue.
use ai_k8s_gateway.Base.{
  String, ◌≡◌, refl, true, ◌⊎◌, inl, inr, some, none, [], ◌∷◌, ◌++◌, ap, ◌∙◌, if◌then◌else◌,
  eq_refl,
}
use ai_k8s_gateway.Errors.{Result, ok}
use ai_k8s_gateway.Value.{null, Params, get_or}
use ai_k8s_gateway.Text.{normal}
use ai_k8s_gateway.Approval
use ai_k8s_gateway.Approval.{PendingRequest, ApprovalQueue}
use ai_k8s_gateway.Approval.Laws.{IsValid, peek-resolve}
use ai_k8s_gateway.Cluster.{ApiCall, Trace}
use ai_k8s_gateway.K8s.{clean_namespace, execute_action}
use ai_k8s_gateway.K8s.Surface.{Routed, execute_action-Routed}
use ai_k8s_gateway.Gateway.Defs.{Env, World}
use ai_k8s_gateway.Gateway.HumanHandlers.{ApprovalResponse, ApproveRequest, approve_action}
use ai_k8s_gateway.Gateway.Approving.{
  taken, approver_of, Approached, stopped, missing, found, approve_action-Approached, Decided,
  rejected, ran, failed, decide-Decided,
}

-- The id is free once it was resolved.
pub resolved_free :
    (id : String) {q : ApprovalQueue}
    → IsValid q
    → Approval.peek id (Approval.resolve id q).1 ≡ none
resolved_free id {q} h =
    peek-resolve id id h ∙ ap (λ b. if b then none else Approval.peek id q) (eq_refl id)

module _ (env : Env) (token id : String) (body : ApproveRequest) (w : World) where
  abbrev after : World
  after = (approve_action env token id body w).1

  -- What lets an approval reach the cluster: a verified token, an approving body, and a request that
  -- waited under the id; the call is the one that the table gives for that request.
  pub record IsApproved (trace : Trace) : Type 0 where
    pub payload : Params
    pub pending : PendingRequest
    pub made : ApiCall
    pub authentic : approver_of env token id body w ≡ ok payload
    pub approving : body.approved ≡ true
    pub waited : Approval.peek id w.queue ≡ some pending
    pub routed :
        Routed env.py pending.params
          (normal env.py pending.action)
          (normal env.py pending.resource)
          (clean_namespace env.py env.cluster pending.namespace)
          made
    pub once : trace ≡ w.trace ++ made ∷ []

  abbrev pub RunsPending : Trace → Type 0
  RunsPending trace = (trace ≡ w.trace) ⊎ IsApproved trace

  run-IsApproved :
      (p : Params) (r : PendingRequest)
      → approver_of env token id body w ≡ ok p
      → Approval.peek id w.queue ≡ some r
      → body.approved ≡ true
      → RunsPending
          (execute_action env.py env.cluster r.action r.resource r.namespace r.params w.trace).1
  run-IsApproved p r v waited granted =
      elim ((execute_action-Routed env.py env.cluster r.action r.resource r.namespace r.params).at
        w.trace) [
          | inl quiet ↦ inl quiet
          | inr (c, routed, once) ↦ inr (record {
            payload = p;
            pending = r;
            made = c;
            authentic = v;
            approving = granted;
            waited = waited;
            routed = routed;
            once = once;
          })
        ]

  Approached-calls :
      {o : Result ApprovalResponse × World}
      → Approached env token id body w o
      → RunsPending o.1.trace
  Approached-calls (stopped e v) = inl refl
  Approached-calls (missing p v free) = inl refl
  Approached-calls (found p r v waited) =
      decided-calls (decide-Decided env id (get_or null "sub" p) r (taken id w) body)
    where
      decided-calls :
          {o : Result ApprovalResponse × World}
          → Decided env id (get_or null "sub" p) r (taken id w) body o
          → RunsPending o.1.trace
      decided-calls (rejected barred queue trace logged) = inl trace
      decided-calls (ran granted queue trace logged) =
          rw trace (run-IsApproved p r v waited granted)
      decided-calls (failed e granted raised same queue trace audit) =
          rw trace (run-IsApproved p r v waited granted)

  -- A call of /approve/{id} leaves the trace of cluster calls as it was, unless its token
  -- verifies, its body approves and a request waits under the id: then the trace may instead
  -- grow by one call, and that call is the one that the dispatch table gives for the verb,
  -- resource, namespace and payload of the waiting request.
  pub approve_action-calls : RunsPending after.trace
  approve_action-calls = Approached-calls (approve_action-Approached env token id body w)

  Approached-free :
      {o : Result ApprovalResponse × World} (p : Params)
      → IsValid w.queue
      → approver_of env token id body w ≡ ok p
      → Approached env token id body w o
      → Approval.peek id o.1.queue ≡ none
  Approached-free p h v (stopped e bad) = cc
  Approached-free p h v (missing _ _ free) = resolved_free id h
  Approached-free p h v (found q r _ waited) =
      decided-free (decide-Decided env id (get_or null "sub" q) r (taken id w) body)
    where
      decided-free :
          {o : Result ApprovalResponse × World}
          → Decided env id (get_or null "sub" q) r (taken id w) body o
          → Approval.peek id o.1.queue ≡ none
      decided-free (rejected barred queue trace logged) = rw queue (resolved_free id h)
      decided-free (ran granted queue trace logged) = rw queue (resolved_free id h)
      decided-free (failed e granted raised same queue trace audit) = rw queue (resolved_free id h)

  -- If the queue is valid and the token verifies, then after a call of /approve/{id} nothing
  -- waits under the id.
  pub approve_action-free :
      (p : Params)
      → IsValid w.queue
      → approver_of env token id body w ≡ ok p
      → Approval.peek id after.queue ≡ none
  approve_action-free p h v = Approached-free p h v (approve_action-Approached env token id body w)

-- If the queue is valid and the token of a first call of /approve/{id} verifies, then a second
-- call for the same id, whatever its token and body, leaves the trace of cluster calls as the
-- first call left it.
pub approve_action_twice :
    (env : Env) (token token' id : String) (body body' : ApproveRequest) (w : World) (p : Params)
    → IsValid w.queue
    → approver_of env token id body w ≡ ok p
    → let w' = (approve_action env token id body w).1 in
      (approve_action env token' id body' w').1.trace ≡ w'.trace
approve_action_twice env token token' id body body' w p h v =
    let w' = (approve_action env token id body w).1 in
    elim (approve_action-calls env token' id body' w') [
      | inl quiet ↦ quiet
      | inr approved ↦
          let free = approve_action-free env token id body w p h v in cc (free, approved.waited)
    ]
