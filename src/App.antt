-- ===== src/App.antt =====
-- src/app: the configuration and its file.
pub mod Config
pub mod Persistence
