-- ===== src/Queue.antt =====
-- internal/queue/postgres.go.
pub mod Params
pub mod Enqueue
pub mod Dequeue
pub mod Backoff
pub mod Settle
pub mod Views
pub mod Effects
pub mod Inserts
pub mod History
pub mod Claims
pub mod Lifecycle
pub mod Spec
pub mod Counts
pub mod Lookups
pub mod Reversals
pub mod WellFormed
pub mod Traces
pub mod Leases
pub mod Picking
pub mod Preference
pub mod Supply
pub mod Nacks
pub mod Outcomes
pub mod Keys
pub mod Holders
pub mod Delays
