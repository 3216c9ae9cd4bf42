-- ===== src/Discovery.antt =====
-- src/discovery: the registry of the receivers that mDNS announces.
pub mod Registry
