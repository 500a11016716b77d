-- ===== src/Gateway.antt =====
-- app/main.py: the endpoints. A handler passes the world on and returns or raises; what it has
-- written before it raises stays written. FastAPI's parsing of requests is not modelled.
mod Defs
mod Handlers
mod HumanHandlers
pub use Defs.{Env, World, Handler, continue, AgentActionRequest, AgentActionResponse, status_of}
unfoldable pub use Defs.{◌>>=◌, ◌>>◌, lift, sample, log, execute_k8s, after_k8s}
pub use Handlers.{Assessment}
pub use HumanHandlers.{ApprovalResponse, ApproveRequest}
unfoldable pub use Handlers.{
  opa_decision, assess, authenticate, audit_of, pending_of, response_of, deny, enqueue_high,
  execute_now, settle, agent_action, list_pending, enqueue, resolve, is_high,
}
unfoldable pub use HumanHandlers.{
  resolved_record, decide, approve_pending, reject_pending, found_or_404, approve_action, health,
}
pub mod Stages
pub mod Refusing
pub mod Settling
pub mod Safety
pub mod Auditing
pub mod Approving
pub mod Approvals
pub mod Lost
pub mod Completing
pub mod Reachability
