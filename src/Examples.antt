-- ===== src/Examples.antt =====
-- A concrete environment, and the theorems at concrete requests.
mod Setting
pub mod Scores
pub mod Decisions
pub mod Queues
pub mod Requests
pub mod Processes
pub mod Services
pub mod Scripts
pub mod Verdicts
pub mod Demos
pub mod Clients
pub mod Logs
pub use Setting.*
