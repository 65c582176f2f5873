-- ===== src/Runtime.antt =====
-- internal/runtime/runtime.go: how a job's process is started, and what is left of it.
pub mod Launch
pub mod Fenced
pub mod Environment
pub mod Reading
