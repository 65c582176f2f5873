-- ===== src/Examples.antt =====
-- Runs of the code on small inputs, and the theorems at such inputs.
mod Api
mod Scheduler
mod Gpu
mod Remote
mod Runtime
mod Amounts
mod Stream
mod Shares
mod Fence
mod Proxy
mod Ledger
mod Daemon
mod Commands
mod Sessions
