-- ===== src/Wireguard.antt =====
-- Wireguard (wireguard.c).
pub mod TakenDown
pub mod Plan
use vpn_mgr.Base.{String, ◌<>◌, Bool, true, false, not, List, [], ◌∷◌, if◌then◌else◌}
use vpn_mgr.Base.Chars.{case_eq}
use vpn_mgr.Base.Text.{valid}
use vpn_mgr.Common.{deliver, read_file_text}
use vpn_mgr.Net.{net_dev_exists, net_dev_find_next, is_connect}
use vpn_mgr.Process.{Read, Env, M, ◌>>=◌, ◌>>◌, pure, emit, get_flags, print}
use vpn_mgr.Route.{route_setup_vpn_server}
use vpn_mgr.RunCommand.Format.{cmd_asroot, get_command_path}
use vpn_mgr.RunCommand.Launch.{run_command}
use vpn_mgr.RunCommand.Output.{RunResult, run_okay, run_fail, run_unknown}
use vpn_mgr.TunTap.{tun_setup, tun_shutdown, is_okay}
use vpn_mgr.UpDown.{vpn_up}
use vpn_mgr.Vpn.{Vpn, Action, act_server}

abbrev pub is_server : Action → Bool
is_server act_server = true
is_server _ = false

unfoldable pub command_path : String → M String
command_path command s = pure (get_command_path s.found command) s

module _ (env : Env) where
  -- A status of -1, which is no result, is `run_unknown` here.
  unfoldable pub launch_userspace : Vpn → String → String → M RunResult
  launch_userspace v dev app = do
    let (cmd, args) = env.get_token app "\\S"
    path ← command_path cmd
    if not (valid path) then pure run_unknown else do
      (if valid args
          then emit (
              print (
                "~cWIREGUARD:~0 '" <> cmd
                <> "' userspace program found. Attempting again using that with arguments: " <> args
                <> "\n"))
          else emit (
              print (
                "~cWIREGUARD:~0 '" <> cmd
                <> "' userspace program found. Attempting again using that..\n")))
      run_command env (app <> " " <> dev) cmd_asroot
      status ← tun_setup env "wireguard" dev v.local_address
      if not (is_okay status)
          then pure status
          else do exists ← net_dev_exists env dev; pure (if exists then run_okay else run_fail)

  abbrev pub allowed_text : String → String
  allowed_text allowed =
      if not (valid allowed)
      then ""
      else if case_eq allowed "all"
      then " allowed-ips 0.0.0.0/0"
      else " allowed-ips " <> allowed

  -- The text of `wg set`, from the host, the port and the peer's key.
  unfoldable pub set_command : Vpn → String → String → String → String → String
  set_command v dev host port key =
      "wg set "
      <> dev
      <> " private-key "
      <> v.client_cert
      <> (if is_server v.action then " listen-port " <> port else "")
      <> " peer "
      <> key
      <> (if is_connect v.action then " endpoint " <> host <> ":" <> port else "")
      <> allowed_text v.allowed_ips

  unfoldable pub wireguard_format_command : Vpn → String → M String
  wireguard_format_command v dev =
      if valid v.conf_file then pure ("wg setconf " <> dev <> " " <> v.conf_file) else do
        key ← read_file_text env v.verify_cert
        let url = env.unpack_url v.server
        let port = if valid url.port then url.port else "51820"
        (if is_connect v.action then route_setup_vpn_server env url.host else pure tt)
        pure (set_command v dev url.host port (env.trim_right (env.trim_right key)))

  -- The userspace programs, tried in turn.
  unfoldable pub try_userspace : Vpn → String → List String → M (Unit {0})
  try_userspace v dev [] = emit (
      print
        "~cWIREGUARD:~0 If your kernel does not support wireguard, consider installing boring-tun: https://https://github.com/cloudflare/boringtun or wireguard-go: https://github.com/WireGuard/wireguard-go userspace implementations.\n")
  try_userspace v dev (app ∷ apps) = do
    status ← launch_userspace v dev app
    if is_okay status then pure tt else try_userspace v dev apps

  abbrev pub userspace_apps : List String
  userspace_apps = "wireguard-go" ∷ "boringtun-cli" ∷ "boringtun-cli --disable-drop-privileges" ∷ []

  -- Reads the terminal until it ends, or FLAG_EXIT is set.
  unfoldable pub wait_for_user : List Read → M (Unit {0})
  wait_for_user [] = pure tt
  wait_for_user (r ∷ reads) = do
    deliver r
    f ← get_flags
    if f.exit then pure tt else wait_for_user reads

  unfoldable pub run_link : Vpn → String → List Read → M (Unit {0})
  run_link v dev terminal = do
    command ← wireguard_format_command v dev
    status ← run_command env command cmd_asroot
    if is_okay status
        then vpn_up env v dev
          >> wait_for_user terminal
          >> emit (print "~cWIREGUARD:~0 shutting down\n")
          >> tun_shutdown env dev
        else emit (print "~rFATAL:~0 wireguard setup failed\n")

  unfoldable pub setup_device : Vpn → String → M (Unit {0})
  setup_device v dev = do
    status ← tun_setup env "wireguard" dev v.local_address
    if is_okay status
        then pure tt
        else (emit (
              print
                "~cWIREGUARD:~0 Failed to create/setup interface. Kernel may not support wireguard.\n")
            >> try_userspace v dev userspace_apps)

  unfoldable pub wireguard_up : Vpn → List Read → M (Unit {0})
  wireguard_up v terminal = do
    emit (
        print
          "~cWIREGUARD:~0 attempt 'modprobe wireguard' to ensure kernel module loaded if needed\n")
    run_command env "modprobe wireguard" cmd_asroot
    dev ← (if valid v.dev then pure v.dev else net_dev_find_next env "wg")
    emit (print ("~cWIREGUARD:~0 using tunnel dev [" <> dev <> "]\n"))
    if valid dev
        then setup_device v dev >> run_link v dev terminal
        else emit (print "~rFATAL:~0 no suitable tunnel device\n")
