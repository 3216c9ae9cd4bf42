-- ===== src/Airplay.antt =====
-- src/airplay: the packets of the AirPlay 2 timing path.
pub mod Ptp
