-- ===== src/RunCommand/Launch/Root.antt =====
-- Commands that root runs (run_command.c).
use vpn_mgr.Base.{String, ◌≡◌, refl, false, ◌∷◌}
use vpn_mgr.Process.{Env, State, ◌>>=◌, get_uid}
use vpn_mgr.RunCommand.Format.{CmdFlags}
use vpn_mgr.RunCommand.Launch.{open_try}

module _ (env : Env) where
  -- Where the user is root, `RunCommandOpenTry` does with any flags, CMD_SU and CMD_SUDO among
  -- them, exactly what it does with the same flags without those two.
  open_try-root :
      (c : String) (f : CmdFlags) (s : State)
      → env.number (get_uid ∷ s.trace) ≡ 0
      → open_try env c f s ≡ open_try env c (record f { su = false; sudo = false }) s
  unfolding open_try ◌>>=◌
  open_try-root c f s h = rw h refl
