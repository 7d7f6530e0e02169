-- ===== src/Examples/Endings.antt =====
-- Runs to the end of a Wireguard link, of openvpn, and of the actions that set up no link.
use vpn_mgr.Base.{◌≡◌, refl, true, false, String, some, [], ◌∷◌}
use vpn_mgr.Main.Upkeep.{perform-returns}
use vpn_mgr.Sample.Quiet.{no_inputs}
use vpn_mgr.Main.{perform}
use vpn_mgr.OpenVpn.TakenDown.{run_client-DeviceGone}
use vpn_mgr.OpenVpn.{
  open_vpn_process, run_client, open_vpn_loop, show_line, act_on, notice_of, skip_date_time,
  skip_tokens, open_vpn_shut_down,
}
use vpn_mgr.Process.Completes.{Untouched}
use vpn_mgr.Process.{◌>>=◌, Env, Read, State, Stream, ret}
use vpn_mgr.Sample.{sample_env, start, stream_of, first_word, split_lines, trim_end}
use vpn_mgr.TunTap.Gone.{DeviceGone}
use vpn_mgr.Vpn.{Vpn, fresh, act_add, act_connect}
use vpn_mgr.Wireguard.TakenDown.{TakenDown, wireguard_up-TakenDown}
use vpn_mgr.Wireguard.{
  wireguard_up, setup_device, try_userspace, launch_userspace, command_path,
  wireguard_format_command, run_link, wait_for_user,
}
use vpn_mgr.TunTap.Ready.{DeviceReady, tun_setup-DeviceReady}
use vpn_mgr.TunTap.{
  tun_setup, tun_problem, tun_available, create_device, activate_device, tun_shutdown,
}
use vpn_mgr.Net.{net_dev_exists, net_load_devices, load_stream, load_lines, net_setup, set_address}
use vpn_mgr.UpDown.{vpn_up, run_scripts, up_down_run_files}
use vpn_mgr.Route.{route_setup}
use vpn_mgr.Resolv.{resolv_change}
use vpn_mgr.RunCommand.Launch.{
  run_command, record_run, run_command_open, root_flags, or_su, open_try, setup_command, launch,
  authenticate, finish_run, drain, show_output,
}
use vpn_mgr.RunCommand.Format.{run_cmd_setup, run_cmd_format, get_var}
use vpn_mgr.RunCommand.Output.{clean_up}
use vpn_mgr.Base.Text.{strip_prefix}
use vpn_mgr.Base.Chars.{case_eq, is_space}
use vpn_mgr.Common.{deliver, log_event, read_file_text}

abbrev line_of : String → Read
line_of line = record { line = line; sigint = false }

abbrev env : Env
env = sample_env (λ trace. some (stream_of 3 [])) (λ trace. true)

abbrev at_start : State
at_start = record start {
  found =
      ("ip", "/sbin/ip")
      ∷ ("modprobe", "/sbin/modprobe")
      ∷ ("chmod", "/bin/chmod")
      ∷ ("wg", "/bin/wg")
      ∷ [];
}

abbrev wg : Vpn
wg = record (fresh act_connect "home" "wg:vpn.example.com") {
  dev = "wg0";
  conf_file = "/etc/wg0.conf";
  up_file = "";
}

wireguard_up-TakenDown_example :
    TakenDown env wg (wireguard_up env wg (line_of "\n" ∷ []) at_start).1
unfolding wireguard_up setup_device try_userspace launch_userspace command_path
    wireguard_format_command run_link wait_for_user tun_setup tun_available create_device
    activate_device tun_shutdown net_dev_exists net_load_devices load_stream load_lines vpn_up
    net_setup set_address route_setup resolv_change run_scripts up_down_run_files run_command
    record_run run_command_open root_flags or_su open_try setup_command launch authenticate
    finish_run drain show_output clean_up run_cmd_setup run_cmd_format get_var case_eq strip_prefix
    sample_env first_word split_lines trim_end is_space deliver log_event read_file_text fresh
    tun_problem ◌>>=◌
wireguard_up-TakenDown_example = wireguard_up-TakenDown env wg (line_of "\n" ∷ []) at_start refl

-- The list of devices has wg0.
abbrev with_device : Env
with_device = sample_env (λ trace. some (stream_of 3 (line_of "wg0" ∷ []))) (λ trace. true)

tun_setup-DeviceReady_example :
    DeviceReady with_device "wg0" (tun_setup with_device "wireguard" "wg0" "10.0.0.2" at_start).1
unfolding tun_setup create_device activate_device net_dev_exists net_load_devices load_stream
    load_lines run_command record_run run_command_open root_flags or_su open_try setup_command
    launch authenticate finish_run drain show_output clean_up run_cmd_setup run_cmd_format get_var
    case_eq strip_prefix sample_env first_word trim_end is_space deliver ◌>>=◌
tun_setup-DeviceReady_example =
    tun_setup-DeviceReady with_device "wg0" "wireguard" "10.0.0.2" at_start refl

abbrev client : Stream
client = stream_of 7 (line_of "1 2 3 TUN/TAP device tun3 opened\n" ∷ [])

run_client-DeviceGone_example :
    (dev : String) × ((open_vpn_process env wg client at_start).0 ≡ ret dev)
    × DeviceGone dev (run_client env wg (some client) at_start).1
unfolding run_client open_vpn_process open_vpn_loop show_line act_on notice_of skip_date_time
    skip_tokens open_vpn_shut_down tun_shutdown run_command record_run run_command_open root_flags
    or_su open_try setup_command launch authenticate finish_run drain show_output clean_up
    run_cmd_setup run_cmd_format get_var case_eq strip_prefix sample_env first_word split_lines
    trim_end is_space deliver log_event read_file_text fresh tun_problem ◌>>=◌
run_client-DeviceGone_example = run_client-DeviceGone env wg client at_start refl

abbrev added : Vpn
added = record (fresh act_add "home" "ovpn:vpn.example.com") { client_cert = "/tmp/home.crt" }

perform-returns_example :
    ((perform env no_inputs added act_add start).0 ≡ ret tt)
    × Untouched start (perform env no_inputs added act_add start).1
perform-returns_example = perform-returns env no_inputs added act_add start tt
