-- ===== src/Ntp.antt =====
-- The NTP service: the packet format, the rate limiter and the server.
pub mod Packet
pub mod RateLimit
pub mod Server
pub mod Peers
