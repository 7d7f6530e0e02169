-- ===== src/Ssh.antt =====
-- VPNs over ssh (ssh.c).
pub mod Remote
pub mod Session
