-- ===== src/Orderly.antt =====
-- Every action of a link ends well: one lemma for each function of the program, by component.
pub mod Commands
pub mod Network
pub mod Devices
pub mod Shell
pub mod Links
pub mod Tls
pub mod Saved
pub mod Whole
pub mod Program
