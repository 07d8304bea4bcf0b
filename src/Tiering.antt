-- ===== src/Tiering.antt =====
-- internal/tiering: cold storage.
pub mod Manifest
pub mod Cache
