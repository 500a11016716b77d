-- ===== src/Gateway/Reachability.antt =====
-- app/main.py: the states that the process can reach by any sequence of calls of its endpoints.
use ai_k8s_gateway.Base.{ℕ, List, suc, String, ◌≡◌, refl, some, arith, length}
use ai_k8s_gateway.Errors.{Result, ok, raise}
use ai_k8s_gateway.Value.{Value, null, Params, get_or}
use ai_k8s_gateway.Auth.{verify_token}
use ai_k8s_gateway.Risk.{high}
use ai_k8s_gateway.Approval
use ai_k8s_gateway.Approval.{PendingRequest, ApprovalQueue}
use ai_k8s_gateway.Approval.Laws.{
  IsValid, peek-init, init-IsValid, enqueue-IsValid, resolve-IsValid, peek-enqueue, peek-resolve,
}
use ai_k8s_gateway.Gateway.Defs.{
  Env, World, continue, ◌>>=◌, lift, sample, AgentActionRequest, AgentActionResponse,
}
use ai_k8s_gateway.Gateway.Handlers.{
  Assessment, pending_of, authenticate, agent_action, list_pending,
}
use ai_k8s_gateway.Gateway.HumanHandlers.{ApproveRequest, ApprovalResponse, approve_action}
use ai_k8s_gateway.Gateway.Stages.{reached, Staged, stopped, settled, agent_action-Staged}
use ai_k8s_gateway.Gateway.Settling.{
  Executed, answered, failed, Settled, denying, queueing, executing, settle-Settled,
}
use ai_k8s_gateway.Gateway.Approving
use ai_k8s_gateway.Gateway.Approving.{
  Approached, missing, found, approve_action-Approached, taken, Decided, rejected, ran,
  decide-Decided,
}

-- What a call does to the queue.
data QueueStep (q : ApprovalQueue) : ApprovalQueue → Type 0 where
  kept : {q' : ApprovalQueue} → q' ≡ q → QueueStep q q'
  queued :
      {q' : ApprovalQueue} (r : PendingRequest)
      → r.risk_level ≡ high
      → q' ≡ (Approval.enqueue r q).1
      → QueueStep q q'
  dequeued : {q' : ApprovalQueue} (id : String) → q' ≡ (Approval.resolve id q).1 → QueueStep q q'

module _ (env : Env) where
  Executed-queue :
      (a : Assessment) (w : World) {o : Result AgentActionResponse × World}
      → Executed env a w o
      → o.1.queue ≡ w.queue
  Executed-queue a w (answered response result done with_result same decided) = refl
  Executed-queue a w (failed e done) = refl

  Settled-queue :
      (a : Assessment) (w : World) {o : Result AgentActionResponse × World}
      → Settled env a w o
      → QueueStep w.queue o.1.queue
  unfolding pending_of
  Settled-queue a w (denying e d) = kept d.queue
  Settled-queue a w (queueing e at_high q) = queued _ at_high q.queue
  Settled-queue a w (executing e below x) = kept (Executed-queue a w x)

  module _ (token : String) (w : World) where
    agent_action_queue :
        (body : AgentActionRequest) → QueueStep w.queue (agent_action env token body w).1.queue
    agent_action_queue body = staged_queue (agent_action-Staged env token body w)
      where
        staged_queue :
            {o : Result AgentActionResponse × World}
            → Staged env token body w o
            → QueueStep w.queue o.1.queue
        staged_queue (stopped e w' why same) = kept same.queue
        staged_queue (settled p a v e) =
            Settled-queue a (reached w) (settle-Settled env a (reached w))

    after_listing :
        (r : Result Params)
        → (continue {B = ℕ × List Params} r
            (λ p w.
              let rows = Approval.list_pending env.py env.settings w.queue in
              (ok (length rows, rows), w))
            (record w { tick = suc w.tick })).1.queue
          ≡ w.queue
    after_listing (ok p) = refl
    after_listing (raise e) = refl

    list_pending_queue : (list_pending env token w).1.queue ≡ w.queue
    unfolding list_pending authenticate ◌>>=◌ lift sample
    list_pending_queue =
        after_listing (verify_token env.jwt env.settings (env.seconds w.tick) token)

    pub Decided-queue :
        (id : String) (approver : Value) (r : PendingRequest) (body : ApproveRequest) (w' : World)
        {o : Result ApprovalResponse × World}
        → Decided env id approver r w' body o
        → o.1.queue ≡ w'.queue
    Decided-queue id approver r body w' (rejected e queue trace logged) = queue
    Decided-queue id approver r body w' (ran e queue trace logged) = queue
    Decided-queue id approver r body w' (Approving.failed x e raised same queue trace audit) = queue

    approve_action_queue :
        (id : String) (body : ApproveRequest)
        → QueueStep w.queue (approve_action env token id body w).1.queue
    approve_action_queue id body = approached_queue (approve_action-Approached env token id body w)
      where
        approached_queue :
            {o : Result ApprovalResponse × World}
            → Approached env token id body w o
            → QueueStep w.queue o.1.queue
        approached_queue (Approving.stopped e v) = kept refl
        approached_queue (missing p v free) = dequeued id refl
        approached_queue (found p r v waited) = dequeued id (
            Decided-queue id (get_or null "sub" p) r body (taken id w)
              (decide-Decided env id (get_or null "sub" p) r (taken id w) body))

  -- One call of an endpoint, whatever its token and its body.
  pub data Step (w : World) : World → Type 0 where
    acts : (token : String) (body : AgentActionRequest) → Step w (agent_action env token body w).1
    lists : (token : String) → Step w (list_pending env token w).1
    approves :
        (token id : String) (body : ApproveRequest) → Step w (approve_action env token id body w).1

  -- Reached from a world with an empty queue.
  pub data IsReachable : World → Type 0 where
    starts : (w : World) → w.queue ≡ Approval.init → IsReachable w
    steps : {w w' : World} → IsReachable w → Step w w' → IsReachable w'

-- The ids are distinct, each request waits under its own, and all of them are high-risk.
pub record IsSound (q : ApprovalQueue) : Type 0 where
  pub valid : IsValid q
  pub risky : (id : String) (r : PendingRequest) → Approval.peek id q ≡ some r → r.risk_level ≡ high

init-IsSound : IsSound Approval.init
init-IsSound = record { valid = init-IsValid; risky = λ id r e. cc (peek-init id) }

QueueStep-IsSound : {q q' : ApprovalQueue} → IsSound q → QueueStep q q' → IsSound q'
QueueStep-IsSound h (kept same) = rw same h
QueueStep-IsSound {q} h (queued r at_high same) = rw same (record {
  valid = enqueue-IsValid r h.valid;
  risky = λ id s e. ground (arith, peek-enqueue r id q, h.risky id s);
})
QueueStep-IsSound h (dequeued k same) = rw same (record {
  valid = resolve-IsValid k h.valid;
  risky = λ id s e. ground (arith, peek-resolve k id h.valid, h.risky id s);
})

Step-queue : (env : Env) {w w' : World} → Step env w w' → QueueStep w.queue w'.queue
Step-queue env {w} (acts token body) = agent_action_queue env token w body
Step-queue env {w} (lists token) = kept (list_pending_queue env token w)
Step-queue env {w} (approves token id body) = approve_action_queue env token w id body

-- In every state that calls of /agent-action, /pending and /approve/{id} lead to from a state
-- with an empty queue, the ids that wait are distinct, each request waits under its own id, and
-- every request that waits is of level high.
pub IsReachable-IsSound : (env : Env) {w : World} → IsReachable env w → IsSound w.queue
IsReachable-IsSound env (starts w empty) = rw empty init-IsSound
IsReachable-IsSound env (steps h s) =
    QueueStep-IsSound (IsReachable-IsSound env h) (Step-queue env s)
