-- ===== src/Store.antt =====
-- internal/store/memory.go. Both maps of the store hold pointers to leases, and one lease is
-- written through either, so the leases stand on a heap.
pub mod Defs
pub mod Ops
pub mod Sweep
pub mod Pool
pub mod Calls
pub mod Range
pub mod Invariant
pub mod View
pub mod Lifecycle
pub mod Isolation
pub mod Conservation
pub mod Sweeps
pub mod Supply
pub mod Counting
pub mod Table
