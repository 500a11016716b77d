-- ===== src/Gateway/Defs.antt =====
-- app/main.py: the state that the endpoints share, and the helpers that touch it.
use ai_k8s_gateway.Base.{ℕ, suc, String, Bool, Option, [], ◌∷◌}
use ai_k8s_gateway.Config.{Settings}
use ai_k8s_gateway.Errors.{
  value_error, unavailable, action_error, http_exception, Result, ok, raise,
}
use ai_k8s_gateway.Value.{Value, str, dict, Params}
use ai_k8s_gateway.Text.{Python}
use ai_k8s_gateway.Risk.{RiskLevel}
use ai_k8s_gateway.Auth.{Jwt}
use ai_k8s_gateway.Opa.{Sidecar}
use ai_k8s_gateway.Approval.{ApprovalQueue}
use ai_k8s_gateway.Audit
use ai_k8s_gateway.Audit.{AuditRecord, AuditLog, Decision}
use ai_k8s_gateway.Cluster.{Cluster, Trace}
use ai_k8s_gateway.K8s.{execute_action}

-- What the process runs in. The clock's readings, fresh UUIDs, whether the audit file can be
-- written, and the sidecar's replies are functions of a tick that every such access advances.
pub record Env : Type 0 where
  pub py : Python
  pub settings : Settings
  pub jwt : Jwt
  pub cluster : Cluster
  pub opa : ℕ → Sidecar
  pub seconds : ℕ → ℕ
  pub isoformat : ℕ → String
  pub uuid : ℕ → String
  pub writable : ℕ → Bool

pub record World : Type 0 where
  pub tick : ℕ
  pub queue : ApprovalQueue
  pub audit : AuditLog
  pub trace : Trace

abbrev pub Handler : Type 0 → Type 0
Handler A = World → Result A × World

abbrev pub continue : {A B : Type 0} → Result A → (A → Handler B) → Handler B
continue (ok a) f w = f a w
continue (raise e) f w = (raise e, w)

infixl 5 ◌>>=◌ ◌>>◌
unfoldable pub ◌>>=◌ : {A B : Type 0} → Handler A → (A → Handler B) → Handler B
◌>>=◌ m f w = let (r, w') = m w in continue r f w'

abbrev pub ◌>>◌ : {A B : Type 0} → Handler A → Handler B → Handler B
m >> n = m >>= λ _. n

unfoldable pub lift : {A : Type 0} → Result A → Handler A
lift r w = (r, w)

-- An access to the environment.
unfoldable pub sample : {A : Type 0} → (ℕ → A) → Handler A
sample f w = (ok (f w.tick), record w { tick = suc w.tick })

pub record AgentActionRequest : Type 0 where
  pub action : String
  pub resource : String
  pub namespace : String
  pub params : Params

-- `result` is the field `data`.
pub record AgentActionResponse : Type 0 where
  pub request_id : String
  pub decision : Decision
  pub risk_level : RiskLevel
  pub risk_score : ℕ
  pub message : String
  pub result : Option Value

-- The HTTP status of a handler's outcome: 200, the HTTPException's, or 500.
abbrev pub status_of : {A : Type 0} → Result A → ℕ
status_of (ok _) = 200
status_of (raise (http_exception status _)) = status
status_of (raise _) = 500

-- `audit.log(...)`: the record is given but for its timestamp.
unfoldable pub log : Env → (String → AuditRecord) → Handler (Unit {0})
log env entry w = (
  ok tt,
  record w {
    tick = suc w.tick;
    audit = Audit.log (env.writable w.tick) (entry (env.isoformat w.tick)) w.audit;
  },
)

-- The handlers of `_execute_k8s`. The text of the exception in the detail is left out.
unfoldable pub after_k8s :
    (action resource namespace : String) → Params → Result Value → Result Value
after_k8s action resource namespace params (raise unavailable) = ok (
    dict (
      ("status", str "[SIMULATED — cluster unreachable]")
      ∷ (
        "WARNING",
        str
            "No Kubernetes cluster was found.  This response is NOT REAL.  Run `bash demo/setup.sh` to provision a local kind cluster.",
      )
      ∷ (
        "would_have_executed",
        dict (
            ("action", str action)
            ∷ ("resource", str resource)
            ∷ ("namespace", str namespace)
            ∷ ("params", dict params)
            ∷ []),
      )
      ∷ []))
after_k8s action resource namespace params (raise (action_error status reason)) =
    raise (http_exception 502 (str "Kubernetes API error"))
after_k8s action resource namespace params (raise value_error) =
    raise (http_exception 502 (str "Kubernetes API error"))
after_k8s action resource namespace params r = r

unfoldable pub execute_k8s : Env → (action resource namespace : String) → Params → Handler Value
execute_k8s env action resource namespace params w =
    let (r, trace) = execute_action env.py env.cluster action resource namespace params w.trace in
    (after_k8s action resource namespace params r, record w { trace = trace })
