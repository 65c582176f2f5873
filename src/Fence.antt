-- ===== src/Fence.antt =====
-- internal/fence: which hosts a job may reach. `Filter` has the seccomp programs of
-- supervisor_linux.go, and `Verdicts` proves what they decide.
pub mod Filter
pub mod Verdicts
pub mod Bytes
pub mod Allowlist
pub mod Heads
pub mod Dns
pub mod Relays
pub mod Supervisor
pub mod Job
pub mod Confinement
