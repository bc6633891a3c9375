-- ===== src/Progress.antt =====
-- pkg/progress: what the client of a task's event stream shows and returns.
pub mod Client
pub mod Stream
pub mod Writers
mod Tests
