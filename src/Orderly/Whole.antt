-- ===== src/Orderly/Whole.antt =====
-- Everything that `main` does with a context (main.c).
use vpn_mgr.Process.Orderly.{Orderly}
use vpn_mgr.Vpn.{Vpn}
