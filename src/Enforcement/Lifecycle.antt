-- ===== src/Enforcement/Lifecycle.antt =====
-- app/main.py: a high-risk request from its submission to the run that a human approved.
use ai_k8s_gateway.Base.{ℕ, String, ◌≡◌, refl, true, some, ap, ◌∙◌, if◌then◌else◌, eq_iff, subst}
use ai_k8s_gateway.Errors.{Result, ok}
use ai_k8s_gateway.Value.{Value, Params}
use ai_k8s_gateway.Risk.{RiskScore}
use ai_k8s_gateway.Policy.{OpaInput, PolicyReason}
use ai_k8s_gateway.Opa.{policy_sidecar}
use ai_k8s_gateway.Approval
use ai_k8s_gateway.Approval.{PendingRequest}
use ai_k8s_gateway.Approval.Laws.{peek-enqueue}
use ai_k8s_gateway.Gateway.{
  Env, World, AgentActionRequest, AgentActionResponse, ApproveRequest, agent_action, approve_action,
  ApprovalResponse, after_k8s, pending_of,
}
use ai_k8s_gateway.Cluster.{Trace}
use ai_k8s_gateway.K8s.{execute_action}
use ai_k8s_gateway.Gateway.Stages.{reached}
use ai_k8s_gateway.Gateway.Approving.{approver_of, taken}
use ai_k8s_gateway.Gateway.Completing.{IsCompleted, approve_action-IsCompleted}
use ai_k8s_gateway.Gateway.Lost.{outcome_of}
use ai_k8s_gateway.Enforcement.{queued, verdict, outcome, run_of, answered_by, Enforces, queueing}
use ai_k8s_gateway.Enforcement.Laws.{agent_action-Enforces}

module _ (env : Env) (render : PolicyReason → String) (token : String) (body : AgentActionRequest)
    (w : World) where
  -- What waits once the request was queued.
  abbrev pub waiting_of : Params → RiskScore → PendingRequest
  waiting_of p rs =
      pending_of env (answered_by env render token body w p rs) (env.isoformat (reached w).tick)

  abbrev pub submitted : World
  submitted = (agent_action env token body w).1

  -- What is left of a queued request.
  pub record IsSubmitted (r : PendingRequest) (w' : World) : Type 0 where
    pub waits : Approval.peek (env.uuid w.tick) w'.queue ≡ some r
    pub trace : w'.trace ≡ w.trace

  queued-IsSubmitted :
      (p : Params) (rs : RiskScore) {o : Result AgentActionResponse × World}
      → Enforces env render token body w o (queued p rs)
      → IsSubmitted (waiting_of p rs) o.1
  unfolding pending_of
  queued-IsSubmitted p rs (queueing q rs' waits) = record {
    waits =
        ap (Approval.peek (env.uuid w.tick)) waits.queue
        ∙ peek-enqueue (waiting_of p rs) (env.uuid w.tick) w.queue
        ∙ ap (λ b. if b then some (waiting_of p rs) else Approval.peek (env.uuid w.tick) w.queue)
            ((eq_iff (env.uuid w.tick) (env.uuid w.tick)).1 refl);
    trace = waits.trace;
  }

  -- The run that the approval makes is the one that the request would have come to at once.
  outcome_of-waiting :
      (p : Params) (rs : RiskScore) (decision : ApproveRequest) (w' : World)
      → w'.trace ≡ w.trace
      → outcome_of env (env.uuid w.tick) decision (waiting_of p rs) w'
        ≡ run_of env render token body w
  unfolding pending_of
  outcome_of-waiting p rs decision w' same =
      ap
        (λ t.
          execute_action env.py env.cluster body.action body.resource body.namespace body.params t)
        same

  -- The answer to the approver, and the call that was made.
  pub record IsApproved (p : Params) (rs : RiskScore) (decision : ApproveRequest) (result : Value)
      (o : Result ApprovalResponse × World) : Type 0 where
    pub completed :
        IsCompleted env
          (env.uuid w.tick)
          decision
          (waiting_of p rs)
          result
          (taken (env.uuid w.tick) submitted)
          o
    pub trace : o.1.trace ≡ (run_of env render token body w).1

  module _ (more : Params)
      (shipped : (tick : ℕ) (url : String) (input : OpaInput)
        → env.opa tick url input ≡ policy_sidecar render more url input) where
    -- With a sidecar that runs the shipped policy: if the verdict on a call of /agent-action
    -- queues its request, and in the state that it leaves a call of /approve/{id} for its id
    -- has a token that verifies and a body that approves, and the request's run, had it been
    -- made at once, gives a result, then this call answers with the id, the decision
    -- "human-allow" and that result, takes the request out of the queue, adds one audit
    -- record of the decision, and leaves the trace of that run.
    pub agent_action-approve_action :
        (p approver : Params) (rs : RiskScore) (token' : String) (decision : ApproveRequest)
        (result : Value)
        → verdict env render token body w ≡ queued p rs
        → approver_of env token' (env.uuid w.tick) decision submitted ≡ ok approver
        → decision.approved ≡ true
        → outcome env render token body w ≡ ok result
        → IsApproved p rs decision result
            (approve_action env token' (env.uuid w.tick) decision submitted)
    unfolding pending_of
    agent_action-approve_action p approver rs token' decision result high_risk authentic granted
          ran =
        let id = env.uuid w.tick in
        let left = queued-IsSubmitted p rs (
          subst (Enforces env render token body w (agent_action env token body w)) high_risk
            (agent_action-Enforces env render more token body w shipped)) in
        let same_run = outcome_of-waiting p rs decision submitted left.trace in
        let completed =
          approve_action-IsCompleted env id decision (waiting_of p rs) token' submitted approver
            result authentic left.waits granted
            (ap
                (λ (o : Result Value × Trace).
                  after_k8s body.action body.resource body.namespace body.params o.0)
                same_run
              ∙ ran) in
        record {
          completed = completed;
          trace =
              completed.trace
              ∙ ap (λ (o : Result Value × Trace). o.1)
                  (outcome_of-waiting p rs decision (taken id submitted) left.trace);
        }
