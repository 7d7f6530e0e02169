-- ===== src/Net.antt =====
-- Network devices, and the local end of a link (net.c).
pub mod Devices
pub mod Laws
pub mod First
pub mod Names
use vpn_mgr.Base.{
  ℕ, zero, suc, ◌+◌, String, ◌<>◌, Bool, true, false, not, ◌&&◌, Option, none, some, List, [], ◌∷◌,
  ◌==◌, any, if◌then◌else◌,
}
use vpn_mgr.Base.Chars.{show}
use vpn_mgr.Base.Text.{valid}
use vpn_mgr.Net.Devices.{Device, find_for_ip, next_ip}
use vpn_mgr.Process.{
  Read, Stream, Env, M, ◌>>=◌, ◌>>◌, pure, emit, get_flags, ask_text, ask_stream, open_stream,
  close, print, interface_ip,
}
use vpn_mgr.Resolv.{resolv_change}
use vpn_mgr.Route.{route_get_default_dev, route_setup}
use vpn_mgr.RunCommand.Format.{cmd_asroot}
use vpn_mgr.RunCommand.Launch.{run_command}
use vpn_mgr.Vpn.{Vpn, Action, act_connect}

abbrev pub is_connect : Action → Bool
is_connect act_connect = true
is_connect _ = false

module _ (env : Env) where
  unfoldable pub load_lines : List Read → M (List Device)
  load_lines [] = pure []
  load_lines (r ∷ reads) = do
    let name = (env.get_token (env.trim_right (env.trim_left r.line)) ":").0
    ip ← ask_text env (interface_ip name)
    more ← load_lines reads
    pure (record { tag = name; item = ip } ∷ more)

  unfoldable pub load_stream : Option Stream → M (List Device)
  load_stream none = pure []
  load_stream (some s) = do devices ← load_lines s.reads; emit (close s.id); pure devices

  unfoldable pub net_load_devices : M (List Device)
  net_load_devices = do s ← ask_stream env (open_stream "/proc/net/dev" "r"); load_stream s

  unfoldable pub net_dev_exists : String → M Bool
  net_dev_exists name = do
    devices ← net_load_devices
    pure (any (λ d. env.tag_matches d.tag name) devices)

  -- The loop of `NetDevFindNext`, with the rounds left and the number to try.
  unfoldable pub find_next : ℕ → ℕ → String → M String
  find_next zero i prefix = pure ""
  find_next (suc rounds) i prefix = do
    exists ← net_dev_exists (prefix <> show i)
    if exists then find_next rounds (i + 1) prefix else pure (prefix <> show i)

  unfoldable pub net_dev_find_next : String → M String
  net_dev_find_next prefix = find_next 999 0 prefix

  unfoldable pub net_get_default_ip : M String
  net_get_default_ip = do dev ← route_get_default_dev env; ask_text env (interface_ip dev)

  unfoldable pub net_dev_find_for_ip : String → String → M String
  net_dev_find_for_ip prefix ip = do
    devices ← net_load_devices
    pure (find_for_ip prefix ip devices)

  unfoldable pub net_dev_find_next_ip : String → M String
  net_dev_find_next_ip prefix = do devices ← net_load_devices; pure (next_ip prefix devices)

  unfoldable pub set_address : Vpn → String → M (Unit {0})
  set_address v dev = if not (valid v.local_address) then pure tt else do
    emit (
        print
          ("~mNET:~0 set IP address of local end of connection to [" <> v.local_address <> "]\n"))
    run_command env
        ("ifconfig "
          <> dev
          <> " "
          <> v.local_address
          <> (if valid v.remote_address then " pointopoint " <> v.remote_address else ""))
        cmd_asroot
    pure tt

  unfoldable pub net_setup : Vpn → String → M (Unit {0})
  net_setup v dev = do
    set_address v dev
    (if is_connect v.action && valid v.allowed_ips
        then route_setup env v.allowed_ips dev
        else pure tt)
    f ← get_flags
    if not f.nodns && valid v.dns then resolv_change env v.dns else pure tt

  unfoldable pub net_shutdown : String → M (Unit {0})
  net_shutdown dev = do
    emit (print ("~mNET:~0 Shutdown local device " <> dev <> "\n"))
    run_command env ("ifconfig " <> dev <> " down") cmd_asroot
    emit (print ("~mNET:~0 Remove local device " <> dev <> "\n"))
    run_command env ("ip link delete dev " <> dev) cmd_asroot
    pure tt
