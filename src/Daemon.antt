-- ===== src/Daemon.antt =====
-- internal/daemon/daemon.go: the life of jobs, over the scheduler and the ledger. `Jobs` has the
-- state and the starting and pausing of a job, `Calls` what the API and the processes call, and
-- `Billing` proves that the ledger bills what a job holds.
pub mod Jobs
pub mod Calls
pub mod Ledgers
pub mod Changes
pub mod Billing
pub mod Errors
