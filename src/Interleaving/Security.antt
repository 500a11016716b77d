-- ===== src/Interleaving/Security.antt =====
-- app/main.py: what holds of the process in every state, whatever requests arrive and in whatever
-- order OPA replies to them.
use ai_k8s_gateway.Base.{
  String, ◌≡◌, refl, ◌∙◌, Bool, true, false, some-injective, some, none, List, [], ◌++◌, ◌∷◌, All,
  All-snoc, All-map, ◌⊎◌, inl, inr, All-middle, ap, subst, sym, if◌then◌else◌, ◌==◌, eq_iff,
}
use ai_k8s_gateway.Errors.{Result}
use ai_k8s_gateway.Risk.{high}
use ai_k8s_gateway.Approval
use ai_k8s_gateway.Approval.{PendingRequest, ApprovalQueue}
use ai_k8s_gateway.Approval.Laws.{
  IsValid, peek-init, init-IsValid, enqueue-IsValid, resolve-IsValid, peek-enqueue, peek-resolve,
}
use ai_k8s_gateway.Audit.{AuditLog}
use ai_k8s_gateway.Cluster.{ApiCall, Trace}
use ai_k8s_gateway.Gateway.{Env, World}
use ai_k8s_gateway.Interleaving.{
  Flight, System, joined, Step, receives, resumes, lists, approves, IsReachable, starts, steps,
}
use ai_k8s_gateway.Interleaving.Provenance.{
  IsReceived, IsCleared, Calls, MadeBy, body_of, risk_of, IsAnnounced, IsAnnounced-log,
}
use ai_k8s_gateway.Interleaving.Receipts.{
  Receipt, turned_away, waiting, receive-Receipt, list_pending-SameState,
}
use ai_k8s_gateway.Interleaving.Changes.{
  TraceChange, quiet, called, AuditChange, silent, logged, QueueChange, kept, queued, dequeued,
  Change, SameState-Change,
}
use ai_k8s_gateway.Interleaving.Changes.Resuming.{resume-Change}
use ai_k8s_gateway.Interleaving.Changes.Deciding.{approve_action-Change}

module _ (env : Env) where
  -- What is known of a request that waits under the id.
  pub record IsAccounted (audit : AuditLog) (id : String) (r : PendingRequest) : Type 0 where
    pub cleared : IsCleared env (body_of r) (risk_of r)
    pub risky : r.risk_level ≡ high
    pub announced : IsAnnounced id audit

  abbrev pub AllAccounted : AuditLog → ApprovalQueue → Type 0
  AllAccounted audit q =
      (id : String) (r : PendingRequest) → Approval.peek id q ≡ some r → IsAccounted audit id r

  pub record IsSecure (w : World) : Type 0 where
    pub valid : IsValid w.queue
    pub accounted : AllAccounted w.audit w.queue

  AuditChange-IsAnnounced :
      {a a' : AuditLog} (id : String) → AuditChange a a' → IsAnnounced id a → IsAnnounced id a'
  AuditChange-IsAnnounced id (silent same) h = rw same h
  AuditChange-IsAnnounced id (logged writable e why same) h =
      rw same (IsAnnounced-log writable e id _ h)

  AuditChange-AllAccounted :
      {a a' : AuditLog} (q : ApprovalQueue)
      → AuditChange a a'
      → AllAccounted a q
      → AllAccounted a' q
  AuditChange-AllAccounted q c h id r e =
      let x = h id r e in
      record {
        cleared = x.cleared;
        risky = x.risky;
        announced = AuditChange-IsAnnounced id c x.announced;
      }

  enqueued_accounted :
      {a : AuditLog} (r : PendingRequest) (q : ApprovalQueue)
      → AllAccounted a q
      → IsAccounted a r.request_id r
      → AllAccounted a (Approval.enqueue r q).1
  enqueued_accounted {a} r q h new id s e =
      by_test (r.request_id == id) refl (sym (peek-enqueue r id q) ∙ e)
    where
      by_test :
          (b : Bool)
          → (r.request_id == id) ≡ b
          → (if b then some r else Approval.peek id q) ≡ some s
          → IsAccounted a id s
      by_test true same found =
          subst (λ i. IsAccounted a i s) ((eq_iff r.request_id id).0 same)
            (subst (IsAccounted a r.request_id) (some-injective r s found) new)
      by_test false other found = h id s found

  resolved_accounted :
      {a : AuditLog} (k : String) (q : ApprovalQueue)
      → IsValid q
      → AllAccounted a q
      → AllAccounted a (Approval.resolve k q).1
  resolved_accounted {a} k q v h id s e = by_test (k == id) (sym (peek-resolve k id v) ∙ e)
    where
      by_test : (b : Bool) → (if b then none else Approval.peek id q) ≡ some s → IsAccounted a id s
      by_test true found = cc
      by_test false found = h id s found

  QueueChange-AllAccounted :
      {a : AuditLog} {q q' : ApprovalQueue}
      → IsValid q
      → AllAccounted a q
      → QueueChange env a q q'
      → AllAccounted a q'
  QueueChange-AllAccounted v h (kept same) = rw same h
  QueueChange-AllAccounted {a} {q} v h (queued r at_high cleared announced same) = rw same (
      enqueued_accounted r q h
        (record { cleared = cleared; risky = at_high; announced = announced }))
  QueueChange-AllAccounted {a} {q} v h (dequeued k same) = rw same (resolved_accounted k q v h)

  QueueChange-IsValid :
      {a : AuditLog} {q q' : ApprovalQueue} → IsValid q → QueueChange env a q q' → IsValid q'
  QueueChange-IsValid v (kept same) = rw same v
  QueueChange-IsValid v (queued r at_high cleared announced same) = rw same (enqueue-IsValid r v)
  QueueChange-IsValid v (dequeued k same) = rw same (resolve-IsValid k v)

  Change-IsSecure :
      {P : ApiCall → Type 0} {w w' : World} → IsSecure w → Change env P w w' → IsSecure w'
  Change-IsSecure h c = record {
    valid = QueueChange-IsValid h.valid c.queue;
    accounted =
        QueueChange-AllAccounted h.valid (AuditChange-AllAccounted _ c.audit h.accounted) c.queue;
  }

  abbrev IsWaiting : Flight → Type 0
  IsWaiting f = IsReceived env f.body f.risk f.payload

  -- The shared state is secure, and every call that waits for OPA was received.
  pub record IsSafe (s : System) : Type 0 where
    pub world : IsSecure s.world
    pub flights : All IsWaiting s.flights

  Receipt-Change :
      {P : ApiCall → Type 0} {w : World} {o : Result Flight × World}
      → Receipt env w o
      → Change env P w o.1
  Receipt-Change (turned_away e w' same later) = SameState-Change env same
  Receipt-Change (waiting f w' received same own later) = SameState-Change env same

  Receipt-flights :
      (w : World) (flights : List Flight) {o : Result Flight × World}
      → All IsWaiting flights
      → Receipt env w o
      → All IsWaiting (joined o.0 flights)
  Receipt-flights w flights h (turned_away e w' same later) = h
  Receipt-flights w flights h (waiting f w' received same own later) =
      All-snoc IsWaiting flights f h received

  abbrev received_of :
      {s : System} (before : List Flight) (f : Flight) (after : List Flight)
      → IsSafe s
      → s.flights ≡ before ++ f ∷ after
      → IsWaiting f × All IsWaiting (before ++ after)
  received_of before f after h split =
      All-middle IsWaiting before f after (subst (All IsWaiting) split h.flights)

  Step-Change :
      {s s' : System}
      → IsSafe s
      → (step : Step env s s') → Change env (Calls env step) s.world s'.world
  Step-Change {s} h (receives token body) = Receipt-Change (receive-Receipt env s.world token body)
  Step-Change {s} h (resumes before after f split) =
      resume-Change env f (received_of before f after h split).0 s.world
  Step-Change {s} h (lists token) = SameState-Change env (list_pending-SameState env s.world token)
  Step-Change {s} h (approves token id body) =
      approve_action-Change env token id body s.world
        (λ i r e. let x = h.world.accounted i r e in (x.cleared, x.risky, x.announced))

  Step-flights : {s s' : System} → IsSafe s → Step env s s' → All IsWaiting s'.flights
  Step-flights {s} h (receives token body) =
      Receipt-flights s.world s.flights h.flights (receive-Receipt env s.world token body)
  Step-flights {s} h (resumes before after f split) = (received_of before f after h split).1
  Step-flights {s} h (lists token) = h.flights
  Step-flights {s} h (approves token id body) = h.flights

  Step-IsSafe : {s s' : System} → IsSafe s → Step env s s' → IsSafe s'
  Step-IsSafe h step = record {
    world = Change-IsSecure h.world (Step-Change h step);
    flights = Step-flights h step;
  }

  start-IsSecure : (w : World) → w.queue ≡ Approval.init → w.trace ≡ [] → IsSecure w
  start-IsSecure w empty unused = record {
    valid = rw empty init-IsValid;
    accounted = λ id r e. cc (e, ap (Approval.peek id) empty, peek-init id);
  }

  pub IsReachable-IsSafe : {s : System} → IsReachable env s → IsSafe s
  IsReachable-IsSafe (starts s empty unused none_waiting) = record {
    world = start-IsSecure s.world empty unused;
    flights = rw none_waiting tt;
  }
  IsReachable-IsSafe (steps h step) = Step-IsSafe (IsReachable-IsSafe h) step

  TraceChange-All :
      (P Q : ApiCall → Type 0) {t t' : Trace}
      → All P t
      → TraceChange Q t t'
      → All (λ c. P c ⊎ Q c) t'
  TraceChange-All P Q {t} h (quiet same) = rw same (All-map P (λ c. P c ⊎ Q c) t (λ c p. inl p) h)
  TraceChange-All P Q {t} h (called c why once) =
      rw once
        (All-snoc (λ c. P c ⊎ Q c) t c (All-map P (λ c. P c ⊎ Q c) t (λ c p. inl p) h) (inr why))

  IsReachable-MadeBy : {s : System} (h : IsReachable env s) → All (MadeBy env h) s.world.trace
  IsReachable-MadeBy (starts s empty unused none_waiting) =
      subst (All (MadeBy env (starts s empty unused none_waiting))) (sym unused) tt
  IsReachable-MadeBy (steps h step) =
      TraceChange-All (MadeBy env h) (Calls env step) (IsReachable-MadeBy h)
        (Step-Change (IsReachable-IsSafe h) step).trace

  -- A reachable state is safe, and every call was made by a turn that led to it.
  pub record IsGuarded {s : System} (h : IsReachable env s) : Type 0 where
    pub safe : IsSafe s
    pub made : All (MadeBy env h) s.world.trace

  -- However the calls of the endpoints interleave at the query to OPA, from a process with an
  -- empty queue, an empty trace and no call in flight: every call in the trace of cluster
  -- calls was made by one of the turns of the event loop that led to the state. That turn went
  -- on with a call of /agent-action whose token had verified, whose request was scored below
  -- high and which the sidecar's reply at that turn allowed; or it was a call of /approve/{id}
  -- with a verified token and an approving body, while a request of level high that had been
  -- allowed and announced waited under the id. The call is the one that the dispatch table
  -- gives for the verb, resource, namespace and payload of that request. The ids that wait are
  -- distinct; every request that waits was received and allowed, is of level high, and is
  -- announced in the audit log, by a record or by the warning in its place; and every call in
  -- flight holds the claims of a verified token and the score of its request.
  pub IsReachable-IsGuarded : {s : System} (h : IsReachable env s) → IsGuarded h
  IsReachable-IsGuarded h = record { safe = IsReachable-IsSafe h; made = IsReachable-MadeBy h }

  -- From a process with an empty queue, an empty trace and no call in flight, every turn of
  -- the event loop adds at most one call of the cluster: none if it receives a request or
  -- lists what waits; if it goes on with a call of /agent-action, the one that the dispatch
  -- table gives for its request, which was received with a verified token, is below high and
  -- is allowed by the reply at this turn; and if it is a call of /approve/{id}, the one for
  -- the request that waits under the id, with a verified token and an approving body. A turn
  -- adds at most one audit record, that of a human decision only on an id that was announced
  -- in the log before; and it keeps the queue, enqueues one allowed request of level high that
  -- the log announces, or takes one id out.
  pub IsReachable-Change :
      {s s' : System}
      → IsReachable env s
      → (step : Step env s s') → Change env (Calls env step) s.world s'.world
  IsReachable-Change h step = Step-Change (IsReachable-IsSafe h) step
