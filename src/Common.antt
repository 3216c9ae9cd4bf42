-- ===== src/Common.antt =====
-- src/common: what the components share.
pub mod ByteOrder
pub mod Util
