-- ===== src/Orderly/Links.antt =====
-- Wireguard and OpenVPN (wireguard.c, openvpn.c).
use vpn_mgr.Base.{String, Option, none, some, List, [], ◌∷◌}
use vpn_mgr.Common.{deliver}
use vpn_mgr.OpenVpn.{
  Notice, iface_up, device, completed, other, problem, warning, exiting, notice_of, act_on,
  show_line, open_vpn_loop, open_vpn_process, write_password, gen_password_file, open_vpn_shut_down,
  run_client, open_vpn_up,
}
use vpn_mgr.Orderly.Commands.{
  deliver-Orderly, read_file_text-Orderly, run_command-Orderly, run_command_open-Orderly,
}
use vpn_mgr.Orderly.Devices.{tun_available-Orderly, tun_setup-Orderly, tun_shutdown-Orderly}
use vpn_mgr.Orderly.Network.{
  net_dev_exists-Orderly, net_dev_find_next-Orderly, route_setup_vpn_server-Orderly,
  default_dev_get_mtu-Orderly, vpn_up-Orderly,
}
use vpn_mgr.Process.Orderly.{
  Orderly, Ordered-trace, >>=-Orderly, if-Orderly, pure-Orderly, get_flags-Orderly, orderly_rules,
}
use vpn_mgr.Process.{Env, Read, Stream, ◌>>=◌, get_flags}
use vpn_mgr.TunTap.{is_okay}
use vpn_mgr.Vpn.{Vpn}
use vpn_mgr.Wireguard.{
  command_path, launch_userspace, wireguard_format_command, try_userspace, wait_for_user, run_link,
  setup_device, wireguard_up,
}

command_path-Orderly : (c : String) → Orderly (command_path c)
unfolding command_path ◌>>=◌
command_path-Orderly c = record { at = λ s. (tt, Ordered-trace s s.trace) }

module _ (env : Env) where
  launch_userspace-Orderly : (v : Vpn) (dev app : String) → Orderly (launch_userspace env v dev app)
  unfolding launch_userspace
  launch_userspace-Orderly v dev app =
      search
        (
          orderly_rules, command_path-Orderly, run_command-Orderly, tun_setup-Orderly,
          net_dev_exists-Orderly,
        )
        depth 24

  wireguard_format_command-Orderly :
      (v : Vpn) (dev : String) → Orderly (wireguard_format_command env v dev)
  unfolding wireguard_format_command
  wireguard_format_command-Orderly v dev =
      search (orderly_rules, read_file_text-Orderly, route_setup_vpn_server-Orderly) depth 16

  try_userspace-Orderly :
      (v : Vpn) (dev : String) (apps : List String) → Orderly (try_userspace env v dev apps)
  unfolding try_userspace
  try_userspace-Orderly v dev [] = search orderly_rules
  try_userspace-Orderly v dev (app ∷ apps) =
      >>=-Orderly (launch_userspace env v dev app) _ (launch_userspace-Orderly v dev app) λ status.
        if-Orderly (is_okay status) _ _ (pure-Orderly tt) (try_userspace-Orderly v dev apps)

  wait_for_user-Orderly : (reads : List Read) → Orderly (wait_for_user env reads)
  unfolding wait_for_user
  wait_for_user-Orderly [] = pure-Orderly tt
  wait_for_user-Orderly (r ∷ reads) = >>=-Orderly (deliver r) _ (deliver-Orderly r) λ _.
      >>=-Orderly get_flags _ get_flags-Orderly
        λ f. if-Orderly f.exit _ _ (pure-Orderly tt) (wait_for_user-Orderly reads)

  run_link-Orderly :
      (v : Vpn) (dev : String) (terminal : List Read) → Orderly (run_link env v dev terminal)
  unfolding run_link
  run_link-Orderly v dev terminal =
      search
        (
          orderly_rules, wireguard_format_command-Orderly, run_command-Orderly, vpn_up-Orderly,
          wait_for_user-Orderly, tun_shutdown-Orderly,
        )
        depth 18

  setup_device-Orderly : (v : Vpn) (dev : String) → Orderly (setup_device env v dev)
  unfolding setup_device
  setup_device-Orderly v dev =
      search (orderly_rules, tun_setup-Orderly, try_userspace-Orderly) depth 16

  pub wireguard_up-Orderly :
      (v : Vpn) (terminal : List Read) → Orderly (wireguard_up env v terminal)
  unfolding wireguard_up
  wireguard_up-Orderly v terminal =
      search
        (
          orderly_rules, run_command-Orderly, net_dev_find_next-Orderly, setup_device-Orderly,
          run_link-Orderly,
        )
        depth 18

  act_on-Orderly : (n : Notice) (v : Vpn) (dev : String) → Orderly (act_on env n v dev)
  unfolding act_on
  act_on-Orderly (iface_up name) v dev = search (orderly_rules, vpn_up-Orderly) depth 14
  act_on-Orderly (device name) v dev = pure-Orderly name
  act_on-Orderly completed v dev = search (orderly_rules, vpn_up-Orderly) depth 14
  act_on-Orderly other v dev = pure-Orderly dev
  act_on-Orderly (problem text) v dev = search orderly_rules depth 14
  act_on-Orderly (warning text) v dev = search orderly_rules depth 14
  act_on-Orderly exiting v dev = search orderly_rules depth 14

  show_line-Orderly : (line : String) → Orderly (show_line env line)
  unfolding show_line
  show_line-Orderly line = search orderly_rules depth 14

  open_vpn_loop-Orderly :
      (v : Vpn) (reads : List Read) (dev : String) → Orderly (open_vpn_loop env v reads dev)
  unfolding open_vpn_loop
  open_vpn_loop-Orderly v [] dev = pure-Orderly dev
  open_vpn_loop-Orderly v (r ∷ reads) dev = >>=-Orderly (deliver r) _ (deliver-Orderly r) λ _.
      >>=-Orderly (show_line env r.line) _ (show_line-Orderly r.line) λ _.
        >>=-Orderly get_flags _ get_flags-Orderly λ f. if-Orderly f.exit _ _ (pure-Orderly dev) (
          >>=-Orderly (act_on env (notice_of env (env.trim_right r.line)) v dev) _
            (act_on-Orderly (notice_of env (env.trim_right r.line)) v dev)
            (λ dev'. open_vpn_loop-Orderly v reads dev'))

  open_vpn_process-Orderly : (v : Vpn) (s : Stream) → Orderly (open_vpn_process env v s)
  unfolding open_vpn_process
  open_vpn_process-Orderly v s = open_vpn_loop-Orderly v s.reads "????"

  write_password-Orderly : (v : Vpn) (s : Option Stream) → Orderly (write_password env v s)
  unfolding write_password
  write_password-Orderly v none = pure-Orderly tt
  write_password-Orderly v (some s) = search orderly_rules depth 12

  gen_password_file-Orderly : (v : Vpn) → Orderly (gen_password_file env v)
  unfolding gen_password_file
  gen_password_file-Orderly v = search (orderly_rules, write_password-Orderly) depth 12

  open_vpn_shut_down-Orderly : (v : Vpn) (dev : String) → Orderly (open_vpn_shut_down env v dev)
  unfolding open_vpn_shut_down
  open_vpn_shut_down-Orderly v dev =
      search (orderly_rules, read_file_text-Orderly, run_command-Orderly, tun_shutdown-Orderly)
        depth 16

  run_client-Orderly : (v : Vpn) (s : Option Stream) → Orderly (run_client env v s)
  unfolding run_client
  run_client-Orderly v none = pure-Orderly tt
  run_client-Orderly v (some s) =
      search (orderly_rules, open_vpn_process-Orderly, open_vpn_shut_down-Orderly) depth 14

  pub open_vpn_up-Orderly : (v : Vpn) → Orderly (open_vpn_up env v)
  unfolding open_vpn_up
  open_vpn_up-Orderly v =
      search
        (
          orderly_rules, tun_available-Orderly, default_dev_get_mtu-Orderly,
          gen_password_file-Orderly, run_command_open-Orderly, run_client-Orderly,
        )
        depth 20
