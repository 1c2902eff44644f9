-- ===== src/EventLoop.antt =====
-- The executor that is driven by envelopes: src/executor-event-loop.
pub mod Clock
pub mod Drained
pub mod Executor
pub mod Loop
pub mod Ordering
pub mod Restarts
pub mod Transport
