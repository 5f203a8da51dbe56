-- ===== src/Gnss.antt =====
-- The GNSS receiver, main/gnss_service.c: the dates it sends, its binary frames (UBX), its text
-- lines (NMEA), and the state that both of them update.
pub mod Dates
pub mod Ubx
pub mod Nmea
pub mod Messages
pub mod Service
