-- ===== src/Examples/Server.antt =====
-- Runs of the server's loop, and of a signal's handler.
use vpn_mgr.Base.{refl, Bool, true, false, String, some, List, [], ◌∷◌, ◌==◌, All}
use vpn_mgr.Base.Chars.{case_eq, case_prefix, skip_space, drop, has_char, is_space, show_int}
use vpn_mgr.Base.Text.{strip_prefix}
use vpn_mgr.Common.{deliver, log_event}
use vpn_mgr.Net.Devices.{next_ip, next_ip_from, devs_ip_exists}
use vpn_mgr.Net.{net_dev_find_next_ip, net_load_devices, load_stream, load_lines}
use vpn_mgr.Ppp.{pppd_launch, pppd_command, with_local_address}
use vpn_mgr.Process.{Env, Read, State, ◌>>=◌}
use vpn_mgr.RunCommand.Format.{get_var, run_cmd_setup}
use vpn_mgr.RunCommand.Launch.{
  run_command_open, root_flags, or_su, open_try, setup_command, launch, authenticate,
}
use vpn_mgr.Sample.{sample_env, start, stream_of, trim_end, split_commas}
use vpn_mgr.SslServer.Auth.{
  Client, authorized, ssl_auth, certificate_flag, named_flag, server_auth_flag, log_client,
  log_list,
}
use vpn_mgr.SslServer.Connections.Admitted.{Admitted, Came, serve_loop-Admitted}
use vpn_mgr.SslServer.Connections.Pairs.{Paired}
use vpn_mgr.SslServer.Connections.Run.{serve_loop-Paired}
use vpn_mgr.SslServer.Connections.{
  Table, ServerEvent, new_client, readable, find_end, link_ends, without_end, ssl_process, pass_on,
  ssl_shutdown_connection, ssl_accept_client, serve_event, serve_loop,
}
use vpn_mgr.Vpn.{Vpn, fresh, act_server}

abbrev env : Env
env = sample_env (λ trace. some (stream_of 3 [])) (λ trace. true)

abbrev is_user : String → Bool
is_user name = name == "root"

abbrev server : Vpn
server = record (fresh act_server "" "ppptls:192.0.2.1:443") { server_auth = "cert" }

abbrev bob : Client
bob = record {
  id = 12;
  peer_ip = "192.0.2.7";
  common_name = "bob";
  certificate_verify = "OK";
  certificate_issuer = "example";
  cipher_details = "";
}

abbrev eve : Client
eve = record bob { id = 14; certificate_verify = "expired" }

abbrev gives : String → Read
gives line = record { line = line; sigint = false }

abbrev arrivals : List ServerEvent
arrivals = new_client bob ∷ readable 12 (gives "data") ∷ new_client eve ∷ []

abbrev linked : Table
linked = link_ends (some (stream_of 3 [])) bob []

abbrev at_start : State
at_start = record start { found = ("pppd", "/sbin/pppd") ∷ [] }

abbrev run_server : Vpn
run_server = record server { local_address = "172.16.0.2"; remote_address = "172.16.0.2" }

serve_loop-Admitted_example :
    All
      (Admitted env is_user "cert" (λ c. Came c arrivals))
      (link_ends (some (stream_of 3 [])) bob [])
unfolding deliver serve_loop serve_event ssl_accept_client log_event log_client log_list
    with_local_address ssl_auth authorized certificate_flag named_flag server_auth_flag ssl_process
    pass_on ssl_shutdown_connection find_end link_ends without_end net_dev_find_next_ip
    net_load_devices load_stream next_ip next_ip_from devs_ip_exists pppd_launch pppd_command
    run_command_open root_flags or_su open_try setup_command launch authenticate run_cmd_setup
    get_var strip_prefix has_char is_space sample_env trim_end split_commas case_eq case_prefix
    skip_space drop load_lines show_int fresh ◌>>=◌
serve_loop-Admitted_example =
    serve_loop-Admitted env is_user arrivals server run_server linked at_start refl

nothing-Paired : Paired []
unfolding find_end
nothing-Paired x y h = absurd cc

serve_loop-Paired_example : Paired linked
unfolding deliver serve_loop serve_event ssl_accept_client log_event log_client log_list
    with_local_address ssl_auth authorized certificate_flag named_flag server_auth_flag ssl_process
    pass_on ssl_shutdown_connection find_end link_ends without_end net_dev_find_next_ip
    net_load_devices load_stream next_ip next_ip_from devs_ip_exists pppd_launch pppd_command
    run_command_open root_flags or_su open_try setup_command launch authenticate run_cmd_setup
    get_var strip_prefix has_char is_space sample_env trim_end split_commas case_eq case_prefix
    skip_space drop load_lines show_int fresh ◌>>=◌
serve_loop-Paired_example =
    serve_loop-Paired env is_user arrivals server run_server [] linked at_start
      ((refl, (refl, tt)), ((refl, (refl, tt)), ((refl, (refl, tt)), tt))) nothing-Paired refl
