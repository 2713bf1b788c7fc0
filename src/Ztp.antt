-- ===== src/Ztp.antt =====
-- internal/ztp: devices, vendor profiles and the operations that join them to the lease stores.
pub mod Defs
pub mod Ops
pub mod Render
pub mod Failure
pub mod Sound
pub mod Readd
pub mod Identity
