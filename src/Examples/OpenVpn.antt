-- ===== src/Examples/OpenVpn.antt =====
-- What openvpn's output leads to (openvpn.c).
use vpn_mgr.Base.{◌≡◌, refl, String, some, false, true, [], ◌∷◌}
use vpn_mgr.OpenVpn.Dated.{Dated, AllDated, open_vpn_process-AllDated}
use vpn_mgr.OpenVpn.Followed.{Followed}
use vpn_mgr.OpenVpn.Plan.{last_device, output_commands, open_vpn_process_refines}
use vpn_mgr.OpenVpn.{open_vpn_process}
use vpn_mgr.Process.{Env, Read, Stream, ret}
use vpn_mgr.Sample.{sample_env, start, stream_of, trim_end, first_word}
use vpn_mgr.UpDown.Commands.{Steady}
use vpn_mgr.Vpn.{Vpn, fresh, act_connect}
use vpn_mgr.Base.Chars.{is_space}

abbrev env : Env
env = sample_env (λ trace. some (stream_of 3 [])) (λ trace. true)

unfoldable steady : Steady env
unfolding sample_env
steady = record {
  pid = 0;
  executable = λ script. true;
  is_pid = λ trace. refl;
  is_executable = λ script trace. refl;
}

abbrev office : Vpn
office = record (fresh act_connect "office" "ovpn:vpn.example.com:1194") {
  allowed_ips = "10.0.0.0/8";
}

abbrev says : String → Read
says line = record { line = line; sigint = false }

abbrev output : Stream
output = stream_of 6 (
    says "Wed May 1 10:00:00 2024 TUN/TAP device tun0 opened"
    ∷ says "Wed May 1 10:00:01 2024 Initialization Sequence Completed"
    ∷ [])

open_vpn_process_refines_example :
    Followed
      (output_commands env steady false office output.reads "????")
      (last_device env output.reads "????")
      start
      (open_vpn_process env office output start).0
      (open_vpn_process env office output start).1.flags.exit
      (open_vpn_process env office output start).1
open_vpn_process_refines_example = open_vpn_process_refines env steady office output start

abbrev dated_output : Stream
dated_output = stream_of 6 (
    says "2024-05-01 10:00:00 TUN/TAP device tun0 opened"
    ∷ says "2024-05-01 10:00:01 Initialization Sequence Completed"
    ∷ [])

device_line : Dated env "2024-05-01 10:00:00 TUN/TAP device tun0 opened"
unfolding sample_env first_word
device_line = record {
  date = "2024-05-01";
  time = "10:00:00";
  word = "TUN/TAP";
  second = "device";
  behind_date = "10:00:00 TUN/TAP device tun0 opened";
  behind_time = "TUN/TAP device tun0 opened";
  behind_word = "device tun0 opened";
  behind_second = "tun0 opened";
  is_date = refl;
  is_time = refl;
  is_word = refl;
  is_second = refl;
  long_date = refl;
  no_keyword = refl;
}

started_line : Dated env "2024-05-01 10:00:01 Initialization Sequence Completed"
unfolding sample_env first_word
started_line = record {
  date = "2024-05-01";
  time = "10:00:01";
  word = "Initialization";
  second = "Sequence";
  behind_date = "10:00:01 Initialization Sequence Completed";
  behind_time = "Initialization Sequence Completed";
  behind_word = "Sequence Completed";
  behind_second = "Completed";
  is_date = refl;
  is_time = refl;
  is_word = refl;
  is_second = refl;
  long_date = refl;
  no_keyword = refl;
}

dated : AllDated env dated_output.reads
unfolding sample_env trim_end is_space
dated = (device_line, (started_line, tt))

open_vpn_process-AllDated_example :
    ((open_vpn_process env office dated_output start).0 ≡ ret "????")
    × ((open_vpn_process env office dated_output start).1.ran ≡ [])
open_vpn_process-AllDated_example =
    open_vpn_process-AllDated env office dated_output start refl dated
