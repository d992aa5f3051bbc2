-- ===== src/Store.antt =====
-- The in-memory store, src/clipforge/store/memory.py: units of work, repositories and the job queue.
pub mod Unit
pub mod Repository
pub mod Jobs
mod Tests
