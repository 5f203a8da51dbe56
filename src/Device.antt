-- ===== src/Device.antt =====
-- The device's settings.
pub mod Config
