-- ===== src/Orderly/Program.antt =====
-- The ways in which the whole program ends (main.c).
use vpn_mgr.Base.{String, ◌⊎◌, List}
use vpn_mgr.CommandLine.Faults.{Faulty}
use vpn_mgr.Process.Orderly.{Stale}
use vpn_mgr.Process.{Env, State}

module _ (env : Env) where
  -- Why the program may fault: for its command line, or for the stream that `Active` is.
  abbrev pub Blames : List String → State → Type 0
  Blames args t = Faulty env args ⊎ Stale t
