-- ===== src/Interleaving/Changes.antt =====
-- app/main.py: what a turn of the event loop may change.
pub mod Resuming
pub mod Deciding
use ai_k8s_gateway.Base.{String, ◌≡◌, refl, ◌≢◌, inl, inr, Bool, true, some, [], ◌∷◌, ◌++◌, ap, ◌∙◌}
use ai_k8s_gateway.Errors.{Result, ok, raise}
use ai_k8s_gateway.Value.{null, Params, get_or}
use ai_k8s_gateway.Auth.{verify_token}
use ai_k8s_gateway.Risk.{high}
use ai_k8s_gateway.Opa.{query_opa}
use ai_k8s_gateway.Opa.Laws.{Allows, read_reply-Allows}
use ai_k8s_gateway.Approval
use ai_k8s_gateway.Approval.{PendingRequest, ApprovalQueue}
use ai_k8s_gateway.Audit
use ai_k8s_gateway.Audit.{AuditRecord, AuditLog, Decision}
use ai_k8s_gateway.Cluster.{ApiCall, Trace}
use ai_k8s_gateway.K8s.{execute_action}
use ai_k8s_gateway.K8s.Surface.{execute_action-Routed}
use ai_k8s_gateway.Gateway.{
  Env, World, AgentActionRequest, AgentActionResponse, audit_of, pending_of, opa_decision, settle,
  ApprovalResponse, ApproveRequest, resolved_record, approve_action, ◌>>=◌, lift, sample,
}
use ai_k8s_gateway.Gateway.Settling.{
  Executed, answered, failed, Settled, denying, queueing, executing, settle-Settled,
}
use ai_k8s_gateway.Gateway.Approving
use ai_k8s_gateway.Gateway.Approving.{
  ticked, taken, Approached, missing, found, approve_action-Approached, Decided, rejected, ran,
  decide-Decided,
}
use ai_k8s_gateway.Gateway.Stages.{SameState}
use ai_k8s_gateway.Interleaving.{Flight, assessment_of, resume}
use ai_k8s_gateway.Interleaving.Provenance.{
  reply_to, IsReceived, IsCleared, RoutedFor, IsDirect, IsApproved, body_of, risk_of, IsAnnounced,
  log-IsAnnounced,
}

-- At most one call, with the property `P`.
pub data TraceChange (P : ApiCall → Type 0) (before after : Trace) : Type 0 where
  quiet : after ≡ before → TraceChange P before after
  called : (c : ApiCall) → P c → after ≡ before ++ c ∷ [] → TraceChange P before after

-- A human's decision.
abbrev pub IsHuman : Decision → Type 0
IsHuman Audit.human_allow = Unit
IsHuman Audit.human_deny = Unit
IsHuman _ = ⊥

-- At most one record is added, and a human's decision only on an id that was announced.
pub data AuditChange (before after : AuditLog) : Type 0 where
  silent : after ≡ before → AuditChange before after
  logged :
      (writable : Bool) (e : AuditRecord)
      → (IsHuman e.decision → IsAnnounced e.request_id before)
      → after ≡ Audit.log writable e before
      → AuditChange before after

pub data QueueChange (env : Env) (audit : AuditLog) (q q' : ApprovalQueue) : Type 0 where
  kept : q' ≡ q → QueueChange env audit q q'
  queued :
      (r : PendingRequest)
      → r.risk_level ≡ high
      → IsCleared env (body_of r) (risk_of r)
      → IsAnnounced r.request_id audit
      → q' ≡ (Approval.enqueue r q).1
      → QueueChange env audit q q'
  dequeued : (id : String) → q' ≡ (Approval.resolve id q).1 → QueueChange env audit q q'

-- What a turn changes, the tick aside.
pub record Change (env : Env) (P : ApiCall → Type 0) (w w' : World) : Type 0 where
  pub trace : TraceChange P w.trace w'.trace
  pub audit : AuditChange w.audit w'.audit
  pub queue : QueueChange env w'.audit w.queue w'.queue

module _ (env : Env) where
  pub Change-refl : {P : ApiCall → Type 0} (w : World) → Change env P w w
  Change-refl w = record { trace = quiet refl; audit = silent refl; queue = kept refl }

  pub ticked-Change :
      {P : ApiCall → Type 0} (w : World) {w' : World}
      → Change env P (ticked w) w'
      → Change env P w w'
  ticked-Change w h = record { trace = h.trace; audit = h.audit; queue = h.queue }

  pub run-TraceChange :
      {P : ApiCall → Type 0} (body : AgentActionRequest) (trace : Trace)
      → ((c : ApiCall) → RoutedFor env body c → P c)
      → TraceChange P trace
          (execute_action env.py env.cluster body.action body.resource body.namespace body.params
            trace).1
  run-TraceChange body trace why =
      elim ((execute_action-Routed env.py env.cluster body.action body.resource body.namespace
          body.params).at
        trace) [ inl same ↦ quiet same | inr (c, routed, once) ↦ called c (why c routed) once ]

  pub SameState-Change : {P : ApiCall → Type 0} {w w' : World} → SameState w w' → Change env P w w'
  SameState-Change same = record {
    trace = quiet same.trace;
    audit = silent same.audit;
    queue = kept same.queue;
  }
