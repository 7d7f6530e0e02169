-- ===== src/VpnConfig.antt =====
-- Reading and writing saved configurations (vpn_config.c).
pub mod Write
pub mod Read
pub mod Files
pub mod Paths
pub mod RoundTrip
pub mod Fields
pub mod Restore
pub mod Written
pub mod Quiet
pub mod Private
pub mod Saved
