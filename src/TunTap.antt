-- ===== src/TunTap.antt =====
-- Tunnel devices (tuntap.c).
pub mod Gone
pub mod Ready
use vpn_mgr.Base.{String, ◌<>◌, Bool, true, false, not, ◌==◌, if◌then◌else◌}
use vpn_mgr.Base.Text.{valid}
use vpn_mgr.Common.{log_event}
use vpn_mgr.Net.{net_dev_exists}
use vpn_mgr.Process.{
  f_ok, r_ok, w_ok, Env, M, ◌>>=◌, ◌>>◌, pure, emit, ask_yes, access, print, log_error,
}
use vpn_mgr.RunCommand.Format.{cmd_asroot}
use vpn_mgr.RunCommand.Launch.{run_command}
use vpn_mgr.RunCommand.Output.{RunResult, run_okay, run_fail}

abbrev pub is_okay : RunResult → Bool
is_okay run_okay = true
is_okay _ = false

abbrev pub tun_path : String
tun_path = "/dev/net/tun"

module _ (env : Env) where
  unfoldable pub tun_modprobe : M (Unit {0})
  tun_modprobe = do
    emit (
        print (
          "~e~cTUN:~0 " <> tun_path
          <> " does not exist. Trying 'modprobe tun' in case kernel module not loaded \n"))
    run_command env "modprobe tun" cmd_asroot
    run_command env "chmod a+rw /dev/net/tun" cmd_asroot
    pure tt

  -- The three tests at the end of `TunAvailable`, in order, with what is logged.
  unfoldable pub tun_problem : M Bool
  tun_problem = do
    exists ← ask_yes env (access tun_path f_ok)
    if not exists
        then log_event log_error "TUN" ("error: " <> tun_path <> " does not seem to exist")
          >> pure true
        else do
          writeable ← ask_yes env (access tun_path w_ok)
          if not writeable
              then log_event log_error "TUN" ("error: " <> tun_path <> " not writeable")
                >> pure true
              else do
                readable ← ask_yes env (access tun_path r_ok)
                if not readable
                    then log_event log_error "TUN" ("error: " <> tun_path <> " not readable")
                      >> pure true
                    else pure false

  unfoldable pub tun_available : M Bool
  tun_available = do
    exists ← ask_yes env (access tun_path f_ok)
    (if exists then pure tt else tun_modprobe)
    run_command env "chmod a+rw /dev/net/tun" cmd_asroot
    problem ← tun_problem
    pure (not problem)

  abbrev pub create_command : String → String → String
  create_command type name =
      if type == "tun"
      then "ip tuntap add dev " <> name <> " mode tun"
      else "ip link add dev " <> name <> " type " <> type

  unfoldable pub create_device : String → String → Bool → M RunResult
  create_device type name true = pure run_okay
  create_device type name false = do
    tun_available
    emit (print ("~e~cTUN:~0 create local tun device [~e" <> name <> "~0]\n"))
    run_command env (create_command type name) cmd_asroot

  unfoldable pub activate_device : String → String → RunResult → M RunResult
  activate_device name address run_okay = do
    (if valid address
        then run_command env ("ip address add dev " <> name <> " " <> address) cmd_asroot >> pure tt
        else pure tt)
    emit (print ("~e~cTUN:~0 activate local tun device [~e" <> name <> "~0]\n"))
    run_command env ("ip link set up dev " <> name) cmd_asroot
    exists ← net_dev_exists env name
    pure (if exists then run_okay else run_fail)
  activate_device name address status = do
    log_event log_error "TUN" ("fatal: Failed to create interface " <> name)
    pure status

  unfoldable pub tun_setup : String → String → String → M RunResult
  tun_setup type name address = do
    exists ← net_dev_exists env name
    status ← create_device type name exists
    activate_device name address status

  unfoldable pub tun_shutdown : String → M (Unit {0})
  tun_shutdown dev = do
    emit (print ("~e~cTUN:~0 shutdown local tun devices [~e" <> dev <> "~0]\n"))
    run_command env ("ip link set dev " <> dev <> " down ") cmd_asroot
    run_command env ("ip link delete dev " <> dev) cmd_asroot
    pure tt
