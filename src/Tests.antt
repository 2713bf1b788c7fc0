-- ===== src/Tests.antt =====
-- Small inputs, and the theorems at work on them.
pub mod Data
pub mod Stores
pub mod Tables
pub mod Nets
pub mod Messages
pub mod Requests
pub mod Subnets
pub mod Relays
pub mod Configs
pub mod Devices
pub mod Transfers
pub mod Programs
pub mod Boots
pub mod Clients
pub mod Floods
