-- ===== src/Runtime.antt =====
-- internal/runtime: the model that runs, over the local repository and the inference processes.
pub mod State
pub mod Infer
pub mod Service
mod Tests
