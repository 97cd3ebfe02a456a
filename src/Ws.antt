-- ===== src/Ws.antt =====
-- internal/ws: the scheduler of one connection's frames, and the transfers that share it.
pub mod Scheduler
pub mod Transfers
