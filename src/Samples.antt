-- ===== src/Samples.antt =====
-- Concrete inputs on which the results of the library are evaluated.
pub mod Transport
pub mod Text
pub mod Agents
pub mod Pointers
pub mod Execution
pub mod Storage
pub mod Control
pub mod Handles
pub mod Messages
