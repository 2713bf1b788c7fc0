-- ===== src/Dhcp.antt =====
-- internal/dhcp: the wire format, the message handlers and the server around them.
pub mod Options
pub mod Packet
pub mod Reply
pub mod Handler
pub mod Server
