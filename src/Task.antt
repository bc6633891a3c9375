-- ===== src/Task.antt =====
-- internal/task: tasks, the events on them, and the manager.
pub mod Types
pub mod Manager
mod Tests
