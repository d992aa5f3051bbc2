-- ===== src/Worker.antt =====
-- The job workers, src/clipforge/worker: what a handler returns, the chain of jobs, the loop that
-- claims and runs them, and the view of the queue that operators read.
pub mod Types
pub mod Chain
pub mod Runtime
pub mod Monitor
mod Tests
