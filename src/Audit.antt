-- ===== src/Audit.antt =====
-- app/audit/logger.py: the append-only audit log. The file is the list of its records; whether the
-- write succeeds is the environment's choice, since the handler swallows an OSError.
use ai_k8s_gateway.Base.{ℕ, String, Bool, true, false, Option, List, [], ◌∷◌, ◌++◌}
use ai_k8s_gateway.Risk.{RiskLevel, Reason}
use ai_k8s_gateway.Value.{Value, Params}

-- "allow", "deny", "pending-approval", "human-allow" and "human-deny".
pub data Decision : Type 0 where
  allow deny pending_approval human_allow human_deny : Decision

pub record AuditRecord : Type 0 where
  pub timestamp : String
  pub request_id : String
  pub identity : Value
  pub role : Value
  pub action : String
  pub resource : String
  pub namespace : String
  pub params : Params
  pub risk_level : RiskLevel
  pub risk_score : ℕ
  pub risk_reasons : List Reason
  pub decision : Decision
  pub opa_reason : Option String
  pub error : Option String

-- The file, and the ids for which a warning went to stderr.
pub record AuditLog : Type 0 where
  pub lines : List AuditRecord
  pub warnings : List String

unfoldable pub log : (writable : Bool) → AuditRecord → AuditLog → AuditLog
log true entry a = record a { lines = a.lines ++ entry ∷ [] }
log false entry a = record a { warnings = a.warnings ++ entry.request_id ∷ [] }
