-- ===== src/UpDown.antt =====
-- What happens when a link comes up and when it goes down (updown.c).
pub mod Commands
pub mod Plan
pub mod Resolver
use vpn_mgr.Base.{String, ◌<>◌, List, [], ◌∷◌, if◌then◌else◌}
use vpn_mgr.Base.Text.{valid}
use vpn_mgr.Common.{log_event}
use vpn_mgr.Net.{net_setup, net_shutdown}
use vpn_mgr.Process.{Env, M, ◌>>=◌, ◌>>◌, pure, ask_yes, access, x_ok, log_okay, log_info}
use vpn_mgr.RunCommand.Format.{cmd_asroot}
use vpn_mgr.RunCommand.Launch.{run_command}
use vpn_mgr.Vpn.{Vpn}

abbrev pub script_command : Vpn → String → String → String
script_command v dev script =
    script <> " '" <> dev <> "' '" <> v.server <> "' '" <> v.local_address <> "' '"
    <> v.remote_address <> "' '" <> v.name <> "'"

module _ (env : Env) where
  unfoldable pub run_scripts : Vpn → String → List String → M (Unit {0})
  run_scripts v dev [] = pure tt
  run_scripts v dev (script ∷ more) = do
    runs ← ask_yes env (access script x_ok)
    (if runs then run_command env (script_command v dev script) cmd_asroot >> pure tt else pure tt)
    run_scripts v dev more

  unfoldable pub up_down_run_files : Vpn → String → String → M (Unit {0})
  up_down_run_files v files dev = run_scripts v dev (env.tokens files ":")

  unfoldable pub vpn_up : Vpn → String → M (Unit {0})
  vpn_up v dev = do
    net_setup env v dev
    (if valid v.up_file then up_down_run_files v v.up_file dev else pure tt)
    log_event log_okay "VPN UP" (v.server <> " Dev=" <> dev)

  unfoldable pub vpn_down : Vpn → String → M (Unit {0})
  vpn_down v dev = do
    net_shutdown env dev
    (if valid v.down_file then up_down_run_files v v.down_file dev else pure tt)
    log_event log_info "VPN DOWN" (v.server <> " Dev=" <> dev)
