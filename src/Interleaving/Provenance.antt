-- ===== src/Interleaving/Provenance.antt =====
-- app/main.py: where a call of the cluster and a waiting request come from.
use ai_k8s_gateway.Base.{
  ℕ, String, ◌≡◌, refl, ◌≢◌, ◌⊎◌, Bool, true, false, some, List, [], ◌∷◌, ◌++◌, append_assoc, ap,
  ◌∙◌,
}
use ai_k8s_gateway.Errors.{ok}
use ai_k8s_gateway.Value.{null, Params, get_or}
use ai_k8s_gateway.Text.{normal}
use ai_k8s_gateway.Auth.{verify_token}
use ai_k8s_gateway.Risk.{RiskScore, high, score}
use ai_k8s_gateway.Opa.{Reply, opa_input}
use ai_k8s_gateway.Opa.Laws.{Allows}
use ai_k8s_gateway.Approval.{PendingRequest}
use ai_k8s_gateway.Audit
use ai_k8s_gateway.Audit.{AuditRecord, AuditLog}
use ai_k8s_gateway.Cluster.{ApiCall}
use ai_k8s_gateway.K8s.{clean_namespace}
use ai_k8s_gateway.K8s.Surface.{Routed}
use ai_k8s_gateway.Approval
use ai_k8s_gateway.Gateway.{Env, World, AgentActionRequest, ApproveRequest}
use ai_k8s_gateway.Interleaving.{
  Flight, System, Step, receives, resumes, lists, approves, IsReachable, starts, steps,
}
use Prim.Native.String.{◌++◌ as ◌<>◌}

module _ (env : Env) where
  -- The sidecar's reply to a query at this tick.
  abbrev pub reply_to : (tick : ℕ) → Params → AgentActionRequest → RiskScore → Reply
  reply_to tick p body risk =
      env.opa tick (env.settings.opa_url <> "/" <> env.settings.opa_policy_path) (
        opa_input env.py (get_or null "sub" p) (get_or null "role" p) body.action body.resource
          body.namespace risk.level body.params)

  -- A token verified, and the request has this score.
  pub record IsReceived (body : AgentActionRequest) (risk : RiskScore) (payload : Params)
      : Type 0 where
    pub token : String
    pub now : ℕ
    pub authentic : verify_token env.jwt env.settings now token ≡ ok payload
    pub scored :
        score env.py env.settings body.action body.resource body.namespace (some body.params)
        ≡ ok risk

  -- And the sidecar allowed it.
  pub record IsCleared (body : AgentActionRequest) (risk : RiskScore) : Type 0 where
    pub payload : Params
    pub received : IsReceived body risk payload
    pub tick : ℕ
    pub permitted : Allows (reply_to tick payload body risk)

  abbrev pub RoutedFor : AgentActionRequest → ApiCall → Type 0
  RoutedFor body c =
      Routed env.py body.params (normal env.py body.action) (normal env.py body.resource)
        (clean_namespace env.py env.cluster body.namespace) c

-- The request and the score that a queue's entry keeps.
abbrev pub body_of : PendingRequest → AgentActionRequest
body_of r = record {
  action = r.action;
  resource = r.resource;
  namespace = r.namespace;
  params = r.params;
}

abbrev pub risk_of : PendingRequest → RiskScore
risk_of r = record { level = r.risk_level; score = r.risk_score; reasons = r.risk_reasons }

-- The log has a record that the id was queued, or the warning in its place.
pub data IsAnnounced (id : String) (log : AuditLog) : Type 0 where
  recorded :
      (before after : List AuditRecord) (e : AuditRecord)
      → log.lines ≡ before ++ e ∷ after
      → e.request_id ≡ id
      → e.decision ≡ Audit.pending_approval
      → IsAnnounced id log
  warned : (before after : List String) → log.warnings ≡ before ++ id ∷ after → IsAnnounced id log

pub log-IsAnnounced :
    (writable : Bool) (e : AuditRecord) (log : AuditLog)
    → e.decision ≡ Audit.pending_approval
    → IsAnnounced e.request_id (Audit.log writable e log)
unfolding Audit.log
log-IsAnnounced true e log h = recorded log.lines [] e refl refl h
log-IsAnnounced false e log h = warned log.warnings [] refl

longer :
    {A : Type 0} {l : List A} (before after : List A) (x y : A)
    → l ≡ before ++ x ∷ after
    → l ++ y ∷ [] ≡ before ++ x ∷ (after ++ y ∷ [])
longer before after x y e = ap (λ l. l ++ y ∷ []) e ∙ append_assoc before (x ∷ after) (y ∷ [])

-- Records are never taken back.
pub IsAnnounced-log :
    (writable : Bool) (e : AuditRecord) (id : String) (log : AuditLog)
    → IsAnnounced id log
    → IsAnnounced id (Audit.log writable e log)
unfolding Audit.log
IsAnnounced-log true e id log (recorded before after x at own told) =
    recorded before (after ++ e ∷ []) x (longer before after x e at) own told
IsAnnounced-log true e id log (warned before after at) = warned before after at
IsAnnounced-log false e id log (recorded before after x at own told) =
    recorded before after x at own told
IsAnnounced-log false e id log (warned before after at) =
    warned before (after ++ e.request_id ∷ []) (longer before after id e.request_id at)

-- Why a turn may make a call of the cluster.
module _ (env : Env) where
  -- A call of /agent-action goes on with the sidecar's reply at this tick, which allows it; its request
  -- was received, and is below high.
  pub record IsDirect (f : Flight) (w : World) (c : ApiCall) : Type 0 where
    pub received : IsReceived env f.body f.risk f.payload
    pub permitted : Allows (reply_to env w.tick f.payload f.body f.risk)
    pub below : f.risk.level ≢ high
    pub routed : RoutedFor env f.body c

  -- A call of /approve/{id} with a verified token and an approving body, for a request that waits under
  -- the id, is of level high, was allowed, and was announced.
  pub record IsApproved (token id : String) (body : ApproveRequest) (w : World) (c : ApiCall)
      : Type 0 where
    pub approver : Params
    pub pending : PendingRequest
    pub authentic : verify_token env.jwt env.settings (env.seconds w.tick) token ≡ ok approver
    pub granted : body.approved ≡ true
    pub waited : Approval.peek id w.queue ≡ some pending
    pub risky : pending.risk_level ≡ high
    pub cleared : IsCleared env (body_of pending) (risk_of pending)
    pub announced : IsAnnounced id w.audit
    pub routed : RoutedFor env (body_of pending) c

  -- The calls that a turn may make.
  abbrev pub Calls : {s s' : System} → Step env s s' → ApiCall → Type 0
  Calls (receives token body) c = ⊥
  Calls {s} (resumes before after f split) c = IsDirect f s.world c
  Calls (lists token) c = ⊥
  Calls {s} (approves token id body) c = IsApproved token id body s.world c

  -- One of the turns that led to the state made this call.
  abbrev pub MadeBy : {s : System} → IsReachable env s → ApiCall → Type 0
  MadeBy (starts s empty unused none_waiting) c = ⊥
  MadeBy (steps h step) c = MadeBy h c ⊎ Calls step c
