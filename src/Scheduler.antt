-- ===== src/Scheduler.antt =====
-- internal/scheduler/scheduler.go: decides where jobs run and who gives way. `State` has its data
-- and the use of a card, `Seating` the choice of seats, `Fit` placement and preemption, and
-- `Operations` the methods that change the state. The other modules prove what these do.
pub mod State
pub mod Seating
pub mod Fit
pub mod Operations
pub mod Usage
pub mod Candidates
pub mod Capacity
pub mod Preemption
pub mod Steps
pub mod Resizing
pub mod Invariant
pub mod Safety
pub mod Placing
pub mod Refusals
pub mod Waiting
pub mod Victims
pub mod Pool
pub mod Pushing
pub mod Marks
pub mod Picking
pub mod Ownership
pub mod Exclusive
pub mod Tenancy
