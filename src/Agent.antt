-- ===== src/Agent.antt =====
-- internal/agent: the parts of the agent that keep state.
pub mod RateLimit
pub mod Csv
pub mod Effects
pub mod Prepared
pub mod Artifacts
pub mod Controller
pub mod Async
