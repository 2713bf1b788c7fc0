-- ===== src/Api.antt =====
-- internal/api: the HTTP management API. A request comes in as the route that the multiplexer
-- picks with the values of its path and query and its decoded body; an answer is a status and what
-- goes into the body. The library's HTTP and JSON are left out.
pub mod Parse
pub mod Answer
pub mod Subnets
pub mod Devices
pub mod Routes
pub mod Refusal
pub mod Sound
pub mod Agreement
