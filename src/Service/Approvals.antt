-- ===== src/Service/Approvals.antt =====
-- `approve` and `reject` of ai_agent_client.py against the service of app/main.py.
use ai_k8s_gateway.Base.{
  String, ◌≡◌, refl, Bool, true, false, some, List, [], ◌∷◌, ◌++◌, ap, ◌∙◌, sym, subst,
}
use ai_k8s_gateway.Errors.{Result, ok}
use ai_k8s_gateway.Value.{Value, null, Params, get_or}
use ai_k8s_gateway.Approval
use ai_k8s_gateway.Approval.{PendingRequest}
use ai_k8s_gateway.Audit
use ai_k8s_gateway.Gateway.{Env, World, ApproveRequest, ApprovalResponse, approve_action, after_k8s}
use ai_k8s_gateway.Gateway.Approving.{
  approver_of, taken, Decided, rejected, ran, failed, decide-Decided,
}
use ai_k8s_gateway.Gateway.Lost.{outcome_of, approve_action-found}
use ai_k8s_gateway.Gateway.Completing.{approve_action-IsCompleted}
use ai_k8s_gateway.Client.{
  Request, Response, Outcome, returned, GatewayClient, verdict, approve, reject, simple,
  handle_response,
}
use ai_k8s_gateway.Client.Laws.{handle_response-returned}
use ai_k8s_gateway.Service.{Framework, IsLawful, approving, approval_json, as_json, network, replay}
use ai_k8s_gateway.Service.Calls.{serve-approving, simple-serve, replay-snoc}

-- What the service is sent.
abbrev pub verdict_body : Bool → (reason : String) → ApproveRequest
verdict_body approved reason = record { approved = approved; reason = some reason }

module _ (framework : Framework) (env : Env) (token : String) (start : World) where
  -- What the caller is told of a completed approval, and what it leaves of the service.
  pub record IsGranted (id : String) (body : ApproveRequest) (r : PendingRequest) (result : Value)
      (request : Request) (sent : List Request) (o : Outcome Value × List Request) : Type 0 where
    pub response : ApprovalResponse
    pub told : o.0 ≡ returned (approval_json response)
    pub of_id : response.request_id ≡ id
    pub decided : response.decision ≡ Audit.human_allow
    pub with_result : response.result ≡ some result
    pub once : o.1 ≡ sent ++ request ∷ []
    pub queue :
        (replay framework env token o.1 start).queue
        ≡ (taken id (replay framework env token sent start)).queue
    pub trace :
        (replay framework env token o.1 start).trace
        ≡ (outcome_of env id body r (taken id (replay framework env token sent start))).1

  -- What the caller is told of a rejection, and that no call reached the cluster.
  pub record IsDiscarded (id : String) (request : Request) (sent : List Request)
      (o : Outcome Value × List Request) : Type 0 where
    pub response : ApprovalResponse
    pub told : o.0 ≡ returned (approval_json response)
    pub decided : response.decision ≡ Audit.human_deny
    pub once : o.1 ≡ sent ++ request ∷ []
    pub queue :
        (replay framework env token o.1 start).queue
        ≡ (taken id (replay framework env token sent start)).queue
    pub trace :
        (replay framework env token o.1 start).trace ≡ (replay framework env token sent start).trace

-- The outcome of a rejection.
record IsRejected (w : World) (o : Result ApprovalResponse × World) : Type 0 where
  response : ApprovalResponse
  answered : o.0 ≡ ok response
  decided : response.decision ≡ Audit.human_deny
  queue : o.1.queue ≡ w.queue
  trace : o.1.trace ≡ w.trace

Decided-IsRejected :
    (env : Env) (id : String) (approver : Value) (r : PendingRequest) (w : World)
    (body : ApproveRequest) {o : Result ApprovalResponse × World}
    → body.approved ≡ false
    → Decided env id approver r w body o
    → IsRejected w o
Decided-IsRejected env id approver r w body barred (rejected _ queue trace logged) = record {
  response = logged.response;
  answered = logged.answered;
  decided = logged.decided;
  queue = queue;
  trace = trace;
}
Decided-IsRejected env id approver r w body barred (ran granted _ _ _) = cc
Decided-IsRejected env id approver r w body barred (failed e granted _ _ _ _ _) = cc

module _ (framework : Framework) (env : Env) (token : String) (client : GatewayClient)
    (start : World) (lawful : IsLawful framework)
    (connected : client.network ≡ network framework env token start) where
  -- A verdict is one call of the handler, and its answer is read as a response.
  verdict-serve :
      (request : Request) (id : String) (body : ApproveRequest) (sent : List Request)
      → framework.route request ≡ some (approving id body)
      → let o = approve_action env token id body (replay framework env token sent start) in
        (simple client request sent
          ≡ (handle_response (framework.reply (as_json approval_json o.0)), sent ++ request ∷ []))
        × (replay framework env token (simple client request sent).1 start ≡ o.1)
  verdict-serve request id body sent routed =
      let w = replay framework env token sent start in
      let served = serve-approving framework env token request id body w routed in
      let called = simple-serve framework env token client start connected request sent in
      (
        called ∙ ap (λ (o : Response × World). (handle_response o.0, sent ++ request ∷ [])) served,
        ap (λ (o : Outcome Value × List Request). replay framework env token o.1 start) called
            ∙ replay-snoc framework env token sent request start
            ∙ ap (λ (o : Response × World). o.1) served,
      )

  read-ok : (v : Value) → handle_response (framework.reply (ok v)) ≡ returned v
  read-ok v =
      (handle_response-returned (framework.reply (ok v)) v).1
        (lawful.answered_status v, lawful.answered_json v)

  -- If the framework is lawful, the client's network is the modelled service from some world
  -- on, the framework routes the verdict to /approve/{id} with its body, the token verifies, a
  -- request waits under the id, and the outcome of its run is read as a result, then the
  -- client's approve returns the JSON body with the id, the decision "human-allow" and the
  -- result, is sent once, and leaves the service with the id taken out of the queue and the
  -- trace of that run.
  pub approve-IsGranted :
      (id reason : String) (sent : List Request) (p : Params) (r : PendingRequest) (result : Value)
      → framework.route (verdict client true id reason)
        ≡ some (approving id (verdict_body true reason))
      → approver_of env token id (verdict_body true reason) (replay framework env token sent start)
        ≡ ok p
      → Approval.peek id (replay framework env token sent start).queue ≡ some r
      → after_k8s r.action r.resource r.namespace r.params
          (outcome_of env id
            (verdict_body true reason)
            r
            (taken id (replay framework env token sent start))).0
        ≡ ok result
      → IsGranted framework env token start id
          (verdict_body true reason)
          r
          result
          (verdict client true id reason)
          sent
          (approve client id reason sent)
  unfolding approve
  approve-IsGranted id reason sent p r result routed authentic waits runs =
      let w = replay framework env token sent start in
      let body = verdict_body true reason in
      let (answer, state) = verdict-serve (verdict client true id reason) id body sent routed in
      let done =
        approve_action-IsCompleted env id body r token w p result authentic waits refl runs in
      record {
        response = done.response;
        told =
            ap (λ (o : Outcome Value × List Request). o.0) answer
            ∙ ap
                (λ (v : Result ApprovalResponse).
                  handle_response (framework.reply (as_json approval_json v)))
                done.answered
            ∙ read-ok (approval_json done.response);
        of_id = done.of_id;
        decided = done.decided;
        with_result = done.with_result;
        once = ap (λ (o : Outcome Value × List Request). o.1) answer;
        queue = ap (λ (after : World). after.queue) state ∙ done.queue;
        trace = ap (λ (after : World). after.trace) state ∙ done.trace;
      }

  -- If the framework is lawful, the client's network is the modelled service from some world
  -- on, the framework routes the verdict to /approve/{id} with its body, the token verifies,
  -- and a request waits under the id, then the client's reject returns the JSON body with the
  -- decision "human-deny", is sent once, takes the id out of the queue, and adds no call to
  -- the cluster's trace.
  pub reject-IsDiscarded :
      (id reason : String) (sent : List Request) (p : Params) (r : PendingRequest)
      → framework.route (verdict client false id reason)
        ≡ some (approving id (verdict_body false reason))
      → approver_of env token id (verdict_body false reason) (replay framework env token sent start)
        ≡ ok p
      → Approval.peek id (replay framework env token sent start).queue ≡ some r
      → IsDiscarded framework env token start id
          (verdict client false id reason)
          sent
          (reject client id reason sent)
  unfolding reject
  reject-IsDiscarded id reason sent p r routed authentic waits =
      let w = replay framework env token sent start in
      let body = verdict_body false reason in
      let (answer, state) = verdict-serve (verdict client false id reason) id body sent routed in
      let done =
        subst (IsRejected (taken id w))
          (sym (approve_action-found env id body r token w p authentic waits))
          (Decided-IsRejected env id (get_or null "sub" p) r (taken id w) body refl
            (decide-Decided env id (get_or null "sub" p) r (taken id w) body)) in
      record {
        response = done.response;
        told =
            ap (λ (o : Outcome Value × List Request). o.0) answer
            ∙ ap
                (λ (v : Result ApprovalResponse).
                  handle_response (framework.reply (as_json approval_json v)))
                done.answered
            ∙ read-ok (approval_json done.response);
        decided = done.decided;
        once = ap (λ (o : Outcome Value × List Request). o.1) answer;
        queue = ap (λ (after : World). after.queue) state ∙ done.queue;
        trace = ap (λ (after : World). after.trace) state ∙ done.trace;
      }
