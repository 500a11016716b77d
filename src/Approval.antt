-- ===== src/Approval.antt =====
-- app/approval/queue.py: the queue of high-risk actions that wait for a human. Each method holds the
-- lock throughout, so threads interleave whole methods: `run` takes any sequence of them.
pub mod Laws
use ai_k8s_gateway.Base.{ℕ, String, Option, some, List, [], ◌∷◌, map}
use ai_k8s_gateway.Base.Int.{pos}
use ai_k8s_gateway.Config.{Settings}
use ai_k8s_gateway.Dict
use ai_k8s_gateway.Dict.{Dict}
use ai_k8s_gateway.Risk.{RiskLevel, Reason, level_text, reason_text}
use ai_k8s_gateway.Text.{Python}
use ai_k8s_gateway.Value.{Value, int, str, arr, items, dict, Params}

-- `queued_at` is the text of the clock at the time of construction.
pub record PendingRequest : Type 0 where
  pub request_id : String
  pub identity : Value
  pub role : Value
  pub action : String
  pub resource : String
  pub namespace : String
  pub params : Params
  pub risk_level : RiskLevel
  pub risk_score : ℕ
  pub risk_reasons : List Reason
  pub queued_at : String

unfoldable pub to_dict : Python → Settings → PendingRequest → Params
unfolding level_text
to_dict py settings r =
    ("request_id", str r.request_id)
    ∷ ("identity", r.identity)
    ∷ ("role", r.role)
    ∷ ("action", str r.action)
    ∷ ("resource", str r.resource)
    ∷ ("namespace", str r.namespace)
    ∷ ("params", dict r.params)
    ∷ ("risk_level", str (level_text r.risk_level))
    ∷ ("risk_score", int (pos r.risk_score))
    ∷ ("risk_reasons", arr (items (map (λ q. str (reason_text py settings q)) r.risk_reasons)))
    ∷ ("queued_at", str r.queued_at)
    ∷ []

pub record ApprovalQueue : Type 0 where
  pub queue : Dict PendingRequest

unfoldable pub init : ApprovalQueue
init = record { queue = Dict.empty }

unfoldable pub enqueue : PendingRequest → ApprovalQueue → String × ApprovalQueue
enqueue request q =
    (request.request_id, record { queue = Dict.put request.request_id request q.queue })

unfoldable pub list_pending : Python → Settings → ApprovalQueue → List Params
list_pending py settings q = map (to_dict py settings) (Dict.values q.queue)

unfoldable pub resolve : String → ApprovalQueue → Option PendingRequest × ApprovalQueue
resolve request_id q =
    let (found, rest) = Dict.pop request_id q.queue in (found, record { queue = rest })

unfoldable pub peek : String → ApprovalQueue → Option PendingRequest
peek request_id q = Dict.get request_id q.queue

unfoldable pub size : ApprovalQueue → ℕ
size q = Dict.size q.queue
