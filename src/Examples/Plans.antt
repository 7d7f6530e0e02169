-- ===== src/Examples/Plans.antt =====
-- A link that comes up and goes down, the routes of the kernel, and the command `delete`.
use mathlib.Core.List.{reverse_aux}
use vpn_mgr.Base.{◌≡◌, refl, true, false, String, some, none, false, arith, List, [], ◌∷◌, inr}
use vpn_mgr.Base.Chars.{case_eq, show, has_char, is_space}
use vpn_mgr.CommandLine.{parse_command_line}
use vpn_mgr.Main.Delete.{perform_parsed-delete}
use vpn_mgr.Sample.Quiet.{no_inputs}
use vpn_mgr.Main.{perform_parsed}
use vpn_mgr.Ppp.Configured.{pppd_loop_refines}
use vpn_mgr.Ppp.{Ready, from_pppd, time_out, pppd_loop}
use vpn_mgr.RunCommand.Once.{Once}
use vpn_mgr.Process.{Env, Read, State, remove_dir, ret, ◌>>=◌}
use vpn_mgr.RunCommand.Runs.{CarriedOut}
use vpn_mgr.Route.Default.{device_of, gateway_of, default_route_last}
use vpn_mgr.Route.Hex.{codes_back, octet, join_octets, parse_hex_address}
use vpn_mgr.Route.Hex.Laws.{codes, dotted, parse_hex_address_lem}
use vpn_mgr.Route.{default_gateway, default_dev, route_setup, route_setup_all, route_command}
use vpn_mgr.Sample.{sample_env, start, stream_of, first_word, split_commas, trim_end}
use vpn_mgr.UpDown.Commands.{Steady, up_commands, down_commands}
use vpn_mgr.UpDown.Plan.{vpn_up_refines, vpn_down_refines}
use vpn_mgr.Net.{net_setup, net_shutdown, set_address}
use vpn_mgr.Resolv.{resolv_change, write_resolv, write_servers}
use vpn_mgr.Common.{log_event, deliver}
use vpn_mgr.TunTap.{tun_shutdown}
use vpn_mgr.Wireguard.Plan.{link_commands, run_commands, run_link_refines}
use vpn_mgr.Wireguard.{run_link, wireguard_format_command, wait_for_user}
use vpn_mgr.RunCommand.Format.{run_cmd_setup, run_cmd_format, get_var}
use vpn_mgr.RunCommand.Launch.{
  run_command, record_run, run_command_open, root_flags, or_su, open_try, setup_command, launch,
  authenticate, finish_run, drain,
}
use vpn_mgr.RunCommand.Output.{clean_up}
use vpn_mgr.Base.Text.{strip_prefix}
use vpn_mgr.UpDown.{run_scripts, up_down_run_files, vpn_up, vpn_down}
use vpn_mgr.Vpn.{Vpn, fresh, act_connect}

abbrev pub env : Env
env = sample_env (λ trace. some (stream_of 3 [])) (λ trace. true)

unfoldable pub steady : Steady env
unfolding sample_env
steady = record {
  pid = 0;
  executable = λ script. true;
  is_pid = λ trace. refl;
  is_executable = λ script trace. refl;
}

abbrev line_of : String → Read
line_of line = record { line = line; sigint = false }

abbrev pub tunnel : Vpn
tunnel = record (fresh act_connect "home" "ssh:vpn.example.com") {
  local_address = "10.8.0.2";
  remote_address = "10.8.0.1";
  allowed_ips = "10.0.0.0/8";
  dns = "10.8.0.1";
  up_file = "/etc/vpn_mgr/home.up";
  down_file = "/etc/vpn_mgr/home.down";
}

abbrev pub at_start : State
at_start = record start {
  found =
      ("route", "/sbin/route")
      ∷ ("ifconfig", "/sbin/ifconfig")
      ∷ ("ip", "/sbin/ip")
      ∷ ("mv", "/bin/mv")
      ∷ [];
}

-- A run that returns has run all of the plan.
up_run :
    (vpn_up env tunnel "tun0" at_start).1.ran
    ≡ reverse_aux (up_commands env steady false tunnel "tun0") []
unfolding vpn_up net_setup net_shutdown set_address route_setup route_setup_all route_command
    resolv_change write_resolv write_servers run_scripts up_down_run_files log_event run_command
    record_run run_command_open root_flags or_su open_try setup_command launch authenticate
    finish_run drain clean_up run_cmd_setup run_cmd_format get_var case_eq strip_prefix has_char
    sample_env split_commas first_word trim_end is_space show fresh ◌>>=◌ steady
up_run = refl

vpn_up_refines_example :
    CarriedOut
      (up_commands env steady false tunnel "tun0")
      at_start
      (vpn_up env tunnel "tun0" at_start).0
      (vpn_up env tunnel "tun0" at_start).1
vpn_up_refines_example = vpn_up_refines env steady tunnel "tun0" at_start

vpn_down_refines_example :
    CarriedOut
      (down_commands env steady tunnel "tun0")
      at_start
      (vpn_down env tunnel "tun0" at_start).0
      (vpn_down env tunnel "tun0" at_start).1
vpn_down_refines_example = vpn_down_refines env steady tunnel "tun0" at_start

abbrev through_wg : Vpn
through_wg = record (fresh act_connect "home" "wg:vpn.example.com") {
  conf_file = "/etc/wg0.conf";
  allowed_ips = "10.0.0.0/8";
}

abbrev with_wg : State
with_wg = record at_start { found = ("wg", "/bin/wg") ∷ at_start.found }

link_run :
    (run_link env through_wg "wg0" (line_of "\n" ∷ []) with_wg).1.ran
    ≡ reverse_aux
        ("wg setconf wg0 /etc/wg0.conf" ∷ link_commands env steady through_wg "wg0" false)
        []
unfolding run_link wireguard_format_command wait_for_user tun_shutdown deliver vpn_up net_setup
    set_address route_setup route_setup_all route_command run_scripts up_down_run_files log_event
    run_command record_run run_command_open root_flags or_su open_try setup_command launch
    authenticate finish_run drain clean_up run_cmd_setup run_cmd_format get_var case_eq strip_prefix
    has_char sample_env split_commas first_word trim_end is_space show fresh ◌>>=◌ steady
link_run = refl

run_link_refines_example :
    CarriedOut
      (run_commands env steady through_wg "wg0"
        (wireguard_format_command env through_wg "wg0" with_wg).0
        (wireguard_format_command env through_wg "wg0" with_wg).1)
      (wireguard_format_command env through_wg "wg0" with_wg).1
      (run_link env through_wg "wg0" (line_of "\n" ∷ []) with_wg).0
      (run_link env through_wg "wg0" (line_of "\n" ∷ []) with_wg).1
run_link_refines_example = run_link_refines env steady through_wg "wg0" (line_of "\n" ∷ []) with_wg

-- Bytes from pppd, and then a pause.
abbrev link_events : List Ready
link_events = from_pppd (line_of "data") ∷ time_out false ∷ []

pppd_loop_refines_example :
    Once
      (up_commands env steady false tunnel)
      at_start
      (pppd_loop env tunnel (stream_of 4 []) (stream_of 9 []) link_events false at_start).0
      (pppd_loop env tunnel (stream_of 4 []) (stream_of 9 []) link_events false at_start).1
pppd_loop_refines_example =
    pppd_loop_refines env steady tunnel (stream_of 4 []) (stream_of 9 []) link_events at_start

parse_hex_address_lem_example :
    parse_hex_address "0101A8C0" ≡ dotted (dotted (dotted (show 192) 168) 1) 1
unfolding codes
parse_hex_address_lem_example =
    parse_hex_address_lem 192 168 1 1 "0101A8C0" (omega arith) (omega arith) (omega arith)
      (omega arith) refl

abbrev first : Read
first = line_of "eth0 00000000 0101A8C0"

abbrev second : Read
second = line_of "wlan0 00000000 0102A8C0"

abbrev third : Read
third = line_of "wlan0 0002A8C0 00000000"

default_route_last_example :
    (default_gateway env (first ∷ second ∷ third ∷ []) ""
      ≡ parse_hex_address (gateway_of env second))
    × (default_dev env (first ∷ second ∷ third ∷ []) "" ≡ device_of env second)
unfolding sample_env first_word parse_hex_address codes_back octet join_octets show
default_route_last_example =
    default_route_last env (first ∷ []) second (third ∷ []) refl (refl, tt) refl (refl, tt)

perform_parsed-delete_example :
    (parse_command_line env ("delete" ∷ []) >>= perform_parsed env no_inputs) start
    ≡ (ret tt, record start { trace = remove_dir "/root/.config/vpn_mgr//" "" ∷ [] })
unfolding sample_env
perform_parsed-delete_example = perform_parsed-delete env no_inputs "delete" none start (inr refl)
