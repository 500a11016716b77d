-- ===== src/Interleaving/Queueing.antt =====
-- app/main.py: what a turn of the event loop puts into the queue.
use ai_k8s_gateway.Base.{
  suc, String, ◌≡◌, refl, ◌⊎◌, inl, inr, Bool, true, false, none, ap, subst, sym, if◌then◌else◌,
  ◌==◌,
}
use ai_k8s_gateway.Errors.{Result, ok, raise}
use ai_k8s_gateway.Value.{null, get_or}
use ai_k8s_gateway.Approval
use ai_k8s_gateway.Approval.{PendingRequest, ApprovalQueue}
use ai_k8s_gateway.Approval.Laws.{IsValid, peek-resolve}
use ai_k8s_gateway.Gateway.{
  Env, World, AgentActionResponse, ApprovalResponse, ApproveRequest, pending_of, opa_decision,
  settle, ◌>>=◌, lift, sample, approve_action,
}
use ai_k8s_gateway.Gateway.Settling.{
  Executed, answered, failed, Settled, denying, queueing, executing, settle-Settled,
}
use ai_k8s_gateway.Gateway.Approving
use ai_k8s_gateway.Gateway.Approving.{
  taken, Approached, missing, found, approve_action-Approached, decide-Decided,
}
use ai_k8s_gateway.Gateway.Reachability.{Decided-queue}
use ai_k8s_gateway.Interleaving.{Flight, assessment_of, resume}

-- What the second half of a call may put into the queue: a request under the call's own id.
pub data OwnQueueing (id : String) (q q' : ApprovalQueue) : Type 0 where
  untouched : q' ≡ q → OwnQueueing id q q'
  added :
      (r : PendingRequest) → r.request_id ≡ id → q' ≡ (Approval.enqueue r q).1 → OwnQueueing id q q'

module _ (env : Env) (f : Flight) where
  Executed-OwnQueueing :
      (d : Bool × String) (w : World) {o : Result AgentActionResponse × World}
      → Executed env (assessment_of f d) w o
      → OwnQueueing f.request_id w.queue o.1.queue
  Executed-OwnQueueing d w (answered response result done with_result same decided) = untouched refl
  Executed-OwnQueueing d w (failed e done) = untouched refl

  Settled-OwnQueueing :
      (d : Bool × String) (w : World) {o : Result AgentActionResponse × World}
      → Settled env (assessment_of f d) w o
      → OwnQueueing f.request_id w.queue o.1.queue
  unfolding pending_of
  Settled-OwnQueueing d w (denying barred o) = untouched o.queue
  Settled-OwnQueueing d w (queueing granted at_high o) =
      added (pending_of env (assessment_of f d) (env.isoformat w.tick)) refl o.queue
  Settled-OwnQueueing d w (executing granted below o) = Executed-OwnQueueing d w o

  after_reply :
      (r : Result (Bool × String)) (w : World)
      → OwnQueueing f.request_id w.queue
          ((lift r >>= λ d. settle env (assessment_of f d)) w).1.queue
  unfolding ◌>>=◌ lift
  after_reply (ok d) w = Settled-OwnQueueing d w (settle-Settled env (assessment_of f d) w)
  after_reply (raise e) w = untouched refl

  pub resume-OwnQueueing : (w : World) → OwnQueueing f.request_id w.queue (resume env f w).1.queue
  unfolding resume sample ◌>>=◌
  resume-OwnQueueing w =
      after_reply (opa_decision env w.tick f.payload f.body f.risk) (record w { tick = suc w.tick })

-- Nothing came into the queue.
abbrev pub Shrinks : ApprovalQueue → ApprovalQueue → Type 0
Shrinks q q' =
    (id : String) → (Approval.peek id q' ≡ none) ⊎ (Approval.peek id q' ≡ Approval.peek id q)

resolved_less : (k : String) {q : ApprovalQueue} → IsValid q → Shrinks q (Approval.resolve k q).1
resolved_less k {q} v id = by_test (k == id) (peek-resolve k id v)
  where
    by_test :
        (b : Bool)
        → Approval.peek id (Approval.resolve k q).1 ≡ (if b then none else Approval.peek id q)
        → (Approval.peek id (Approval.resolve k q).1 ≡ none)
          ⊎ (Approval.peek id (Approval.resolve k q).1 ≡ Approval.peek id q)
    by_test true e = inl e
    by_test false e = inr e

pub Shrinks-same : {q q' : ApprovalQueue} → q' ≡ q → Shrinks q q'
Shrinks-same same id = inr (ap (Approval.peek id) same)

module _ (env : Env) where
  Approached-Shrinks :
      (token id : String) (body : ApproveRequest) (w : World) {o : Result ApprovalResponse × World}
      → IsValid w.queue
      → Approached env token id body w o
      → Shrinks w.queue o.1.queue
  Approached-Shrinks token id body w v (Approving.stopped e bad) = Shrinks-same refl
  Approached-Shrinks token id body w v (missing p e free) = resolved_less id v
  Approached-Shrinks token id body w v (found p r e waited) =
      subst (Shrinks w.queue)
        (sym (
          Decided-queue env token w id (get_or null "sub" p) r body (taken id w)
            (decide-Decided env id (get_or null "sub" p) r (taken id w) body)))
        (resolved_less id v)

  pub approve_action-Shrinks :
      (token id : String) (body : ApproveRequest) (w : World)
      → IsValid w.queue
      → Shrinks w.queue (approve_action env token id body w).1.queue
  approve_action-Shrinks token id body w v =
      Approached-Shrinks token id body w v (approve_action-Approached env token id body w)
