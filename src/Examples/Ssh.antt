-- ===== src/Examples/Ssh.antt =====
-- A session over ssh (ssh.c).
use vpn_mgr.Base.{◌≡◌, refl, Bool, true, false, String, List, ◌∷◌, [], some, eqb, if◌then◌else◌}
use vpn_mgr.Base.Chars.{case_eq, show, has_char, is_space}
use vpn_mgr.Base.Text.{strip_prefix}
use vpn_mgr.Common.{log_event, deliver, signal_handler, set_exit, ssh_vpn_terminate}
use vpn_mgr.Net.{net_setup, net_shutdown, set_address}
use vpn_mgr.Resolv.{resolv_change, write_resolv, write_servers}
use vpn_mgr.Route.{route_setup, route_setup_all, route_command}
use vpn_mgr.RunCommand.Launch.{
  run_command, record_run, run_command_open, root_flags, or_su, open_try, setup_command, launch,
  authenticate, finish_run, drain,
}
use vpn_mgr.RunCommand.Output.{clean_up}
use vpn_mgr.UpDown.{run_scripts, up_down_run_files, vpn_up, vpn_down}
use vpn_mgr.Vpn.{fresh}
use vpn_mgr.Examples.Plans.{env, steady, tunnel, at_start}
use vpn_mgr.Process.{Env, Event, close, Read, Stream, ret, fault, ◌>>=◌}
use vpn_mgr.RunCommand.Format.{run_cmd_setup, run_cmd_format, get_var}
use vpn_mgr.RunCommand.Runs.{CarriedOut}
use vpn_mgr.Sample.{sample_env, stream_of, first_word, split_commas, trim_end}
use vpn_mgr.Ssh.Remote.{
  ssh_vpn_sync, send_sync, sync_loop, sync_line, after_sync, debug_print, read_bytes_left,
  take_bytes, ssh_get_remote_dev, remote_dev_loop, ssh_vpn_run_command, remote_allowed,
  run_command_try, send_command, format_remote,
}
use vpn_mgr.Ssh.Session.Plan.{session_commands, run_session_refines}
use vpn_mgr.Ssh.Session.{
  run_session, ssh_setup, set_active, close_session, after_close, ssh_process, process_loop,
  own_address, route_back,
}

abbrev echoes : String → Read
echoes line = record { line = line; sigint = false }

-- The shell echoes each key, names its device, and then says one line.
abbrev remote : Stream
remote =
    stream_of 8
      (echoes "\n" ∷ echoes "tun5\n" ∷ echoes "\n" ∷ echoes "\n" ∷ echoes "welcome\n" ∷ [])

setup_run :
    (ssh_setup env tunnel remote at_start).0
    ≡ ret (true, tunnel, stream_of 8 (echoes "welcome\n" ∷ []))
unfolding ssh_setup ssh_vpn_sync send_sync sync_loop sync_line after_sync debug_print
    read_bytes_left take_bytes ssh_get_remote_dev remote_dev_loop own_address route_back
    ssh_vpn_run_command remote_allowed run_command_try send_command format_remote run_cmd_format
    strip_prefix sample_env trim_end is_space ◌>>=◌ deliver
setup_run = refl

run_session_refines_example :
    CarriedOut
      (session_commands env steady false "tun0" (ssh_setup env tunnel remote at_start).0)
      at_start
      (run_session env tunnel "tun0" remote at_start).0
      (run_session env tunnel "tun0" remote at_start).1
run_session_refines_example = run_session_refines env steady tunnel "tun0" remote at_start

-- Whether the session's stream was closed.
closed_yet : List Event → Bool
closed_yet [] = false
closed_yet (close id ∷ trace) = if eqb id 8 then true else closed_yet trace
closed_yet (event ∷ trace) = closed_yet trace

abbrev interrupted : Read
interrupted = record { line = ""; sigint = true }

-- SIGINT comes while the first command of `VpnDown` runs.
abbrev late : Env
late =
    sample_env (λ trace. some (stream_of 3 (if closed_yet trace then interrupted ∷ [] else [])))
      (λ trace. true)

-- The handler then uses the stream that was closed.
late_run : (run_session late tunnel "tun0" remote at_start).0 ≡ fault
unfolding run_session set_active close_session after_close ssh_process process_loop vpn_up vpn_down
    net_setup net_shutdown set_address route_setup route_setup_all route_command resolv_change
    write_resolv write_servers run_scripts up_down_run_files log_event run_command record_run
    run_command_open root_flags or_su open_try setup_command launch authenticate finish_run drain
    clean_up run_cmd_setup run_cmd_format get_var case_eq has_char split_commas first_word show
    fresh signal_handler set_exit ssh_vpn_terminate closed_yet ssh_setup ssh_vpn_sync send_sync
    sync_loop sync_line after_sync debug_print read_bytes_left take_bytes ssh_get_remote_dev
    remote_dev_loop own_address route_back ssh_vpn_run_command remote_allowed run_command_try
    send_command format_remote strip_prefix sample_env trim_end is_space ◌>>=◌ deliver
late_run = refl
