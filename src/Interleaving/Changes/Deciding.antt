-- ===== src/Interleaving/Changes/Deciding.antt =====
-- app/main.py: what a call of `approve_action` changes.
use ai_k8s_gateway.Base.{String, ◌≡◌, refl, true, some}
use ai_k8s_gateway.Errors.{Result, ok}
use ai_k8s_gateway.Value.{null, Params, get_or}
use ai_k8s_gateway.Auth.{verify_token}
use ai_k8s_gateway.Risk.{high}
use ai_k8s_gateway.Approval
use ai_k8s_gateway.Approval.{PendingRequest, ApprovalQueue}
use ai_k8s_gateway.Audit.{AuditLog}
use ai_k8s_gateway.Cluster.{Trace}
use ai_k8s_gateway.K8s.{execute_action}
use ai_k8s_gateway.Gateway.{
  Env, World, ApprovalResponse, ApproveRequest, resolved_record, approve_action,
}
use ai_k8s_gateway.Gateway.Approving
use ai_k8s_gateway.Gateway.Approving.{
  ticked, taken, Approached, missing, found, approve_action-Approached, Decided, rejected, ran,
  decide-Decided,
}
use ai_k8s_gateway.Interleaving.Provenance.{IsCleared, IsApproved, body_of, risk_of, IsAnnounced}
use ai_k8s_gateway.Interleaving.Changes.{
  TraceChange, quiet, silent, logged, dequeued, Change, Change-refl, ticked-Change, run-TraceChange,
}

module _ (env : Env) where
  module _ (token id : String) (body : ApproveRequest) (w : World) (p : Params) (r : PendingRequest)
      (authentic : verify_token env.jwt env.settings (env.seconds w.tick) token ≡ ok p)
      (waited : Approval.peek id w.queue ≡ some r) (cleared : IsCleared env (body_of r) (risk_of r))
      (at_high : r.risk_level ≡ high) (announced : IsAnnounced id w.audit) where
    approved_run :
        {trace : Trace}
        → body.approved ≡ true
        → trace
          ≡ (execute_action env.py env.cluster r.action r.resource r.namespace r.params w.trace).1
        → TraceChange (IsApproved env token id body w) w.trace trace
    approved_run granted e = rw e (
        run-TraceChange env (body_of r) w.trace (λ c routed. record {
          approver = p;
          pending = r;
          authentic = authentic;
          granted = granted;
          waited = waited;
          risky = at_high;
          cleared = cleared;
          announced = announced;
          routed = routed;
        }))

    Decided-Change :
        {o : Result ApprovalResponse × World}
        → Decided env id (get_or null "sub" p) r (taken id w) body o
        → Change env (IsApproved env token id body w) w o.1
    unfolding resolved_record
    Decided-Change (rejected e queue trace told) = record {
      trace = quiet trace;
      audit = logged _ _ (λ h. announced) told.audit;
      queue = dequeued id queue;
    }
    Decided-Change (ran e queue trace told) = record {
      trace = approved_run e trace;
      audit = logged _ _ (λ h. announced) told.audit;
      queue = dequeued id queue;
    }
    Decided-Change (Approving.failed x e raised same queue trace audit) = record {
      trace = approved_run e trace;
      audit = silent audit;
      queue = dequeued id queue;
    }

  -- What is known of every waiting request.
  abbrev pub AllCleared : AuditLog → ApprovalQueue → Type 0
  AllCleared audit q =
      (id : String) (r : PendingRequest)
      → Approval.peek id q ≡ some r
      → IsCleared env (body_of r) (risk_of r) × (r.risk_level ≡ high) × IsAnnounced id audit

  Approached-Change :
      (token id : String) (body : ApproveRequest) (w : World) {o : Result ApprovalResponse × World}
      → AllCleared w.audit w.queue
      → Approached env token id body w o
      → Change env (IsApproved env token id body w) w o.1
  Approached-Change token id body w h (Approving.stopped e v) =
      ticked-Change env w (Change-refl env (ticked w))
  Approached-Change token id body w h (missing p v free) = record {
    trace = quiet refl;
    audit = silent refl;
    queue = dequeued id refl;
  }
  Approached-Change token id body w h (found p r v waited) =
      let (cleared, at_high, announced) = h id r waited in
      Decided-Change token id body w p r v waited cleared at_high announced
        (decide-Decided env id (get_or null "sub" p) r (taken id w) body)

  pub approve_action-Change :
      (token id : String) (body : ApproveRequest) (w : World)
      → AllCleared w.audit w.queue
      → Change env (IsApproved env token id body w) w (approve_action env token id body w).1
  approve_action-Change token id body w h =
      Approached-Change token id body w h (approve_action-Approached env token id body w)
