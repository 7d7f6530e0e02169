-- ===== src/Examples/Program.antt =====
-- Whole runs (main.c).
use vpn_mgr.Base.{
  String, ◌<>◌, ◌≡◌, refl, true, false, Option, none, some, List, [], ◌∷◌, ◌==◌, if◌then◌else◌,
}
use vpn_mgr.Base.Chars.{case_eq}
use vpn_mgr.Base.Text.{strip_prefix}
use vpn_mgr.CommandLine.Laws.{parse_command_line-server}
use vpn_mgr.CommandLine.{is_server_url, parse_command_line}
use vpn_mgr.Main.Saved.{PlainCopies, asked, connect-add_config}
use vpn_mgr.Main.Protocols.{lacking, available, report, display_protocol_support-find_commands}
use vpn_mgr.RunCommand.Format.{find_commands}
use vpn_mgr.Main.{connect, display_protocol_support, start_vpn}
use vpn_mgr.Process.{
  find_in_path, print, ◌>>◌, Env, Event, State, Stream, fault, ret, open_stream, close,
}
use vpn_mgr.Sample.Quiet.{no_inputs}
use vpn_mgr.Sample.Reader.{sample_reads}
use vpn_mgr.Sample.{sample_env, start, stream_of, split_lines}
use vpn_mgr.Vpn.{Vpn, fresh, act_add, act_connect}
use vpn_mgr.VpnConfig.Files.{add_config}
use vpn_mgr.VpnConfig.Restore.{IsWritable, restored}
use vpn_mgr.VpnConfig.RoundTrip.{is_plain, quiet_reads}
use vpn_mgr.VpnConfig.Saved.{Saved}
use vpn_mgr.VpnConfig.Write.{saved_path}
use vpn_mgr.VpnConfig.Written.{file_text}

abbrev env : Env
env = sample_env (λ trace. none) (λ trace. false)

parse_command_line-server_example :
    parse_command_line env ("server" ∷ "192.0.2.1" ∷ []) start ≡ (fault, start)
unfolding case_eq strip_prefix is_server_url sample_env
parse_command_line-server_example =
    parse_command_line-server env "server" "192.0.2.1" [] start refl refl refl refl

abbrev wg : Vpn
wg = fresh act_connect "home" "wg:vpn.example.com:51820"

-- A file that gives back what was written to it.
opened : List Event → Option Stream
opened (open_stream path mode ∷ earlier) =
    if mode == "r"
    then some (stream_of 7 (quiet_reads (split_lines (file_text 7 earlier))))
    else some (stream_of 7 [])
opened _ = none

abbrev saving : Env
saving = sample_env opened (λ trace. true)

abbrev home : Vpn
home = record (fresh act_add "home" "wg:vpn.example.com:51820") {
  client_key = "/tmp/home.key";
  local_address = "10.0.0.2";
  allowed_ips = "10.0.0.0/24,192.168.1.0/24";
  dns = "10.0.0.1";
}

home-IsWritable : IsWritable "/root" home
unfolding is_plain saved_path strip_prefix fresh
home-IsWritable = record {
  server = refl;
  client_cert = (refl, refl);
  client_key = (refl, refl);
  verify_cert = (refl, refl);
  conf_file = (refl, refl);
  up_file = (refl, refl);
  down_file = (refl, refl);
  local_address = refl;
  allowed_ips = refl;
  remote_dev = refl;
  dns = refl;
  client_id = refl;
  user_name = refl;
  password = refl;
  remote_search_path = refl;
  timeout = refl;
}

copies : PlainCopies "/root" "home"
unfolding is_plain saved_path strip_prefix
copies = record { cert = (refl, refl); key = (refl, refl); server = (refl, refl) }

-- The process of a later run.
abbrev later : State
later = record start { trace = (add_config saving home start).1.trace }

-- What that process reads.
abbrev back : Stream
back = stream_of 7 (quiet_reads (split_lines (file_text 7 later.trace)))

connect-add_config_example :
    (w : Vpn) × ((add_config saving home start).0 ≡ ret w)
    × Saved "/root" home w
    × (let c = restored w start.flags (asked "home" start.flags) in
        connect saving no_inputs (fresh act_connect "home" "") later
        ≡ start_vpn saving no_inputs (saving.get_token home.server ":").0 c.vpn record later {
          flags = c.flags;
          trace = close 7 ∷ open_stream "/root/.config/vpn_mgr/home/home.conf" "r" ∷ later.trace;
        })
unfolding sample_env opened file_text fresh
connect-add_config_example =
    connect-add_config saving (sample_reads opened (λ trace. true)) no_inputs home start later
      (stream_of 7 []) back home-IsWritable copies refl (λ t. refl) refl refl refl refl

-- An environment in which every program but `wg` is found.
abbrev where_is : String → String
where_is program = if program == "wg" then "" else "/bin/" <> program

searched : List Event → String
searched (find_in_path program path ∷ earlier) = where_is program
searched _ = ""

abbrev searching : Env
searching = record env { text = searched }

display_protocol_support-find_commands_example :
    (find_commands searching "ip,wg" >> display_protocol_support searching "wireguard" "ip,wg")
      (record start { found = [] })
    ≡ (let t = (find_commands searching "ip,wg" (record start { found = [] })).1 in
        (
          ret tt,
          record t {
            trace =
                print (
                  report "wireguard"
                    (lacking (available searching where_is "ip,wg") ("ip" ∷ "wg" ∷ [])))
                ∷ t.trace;
          },
        ))
unfolding sample_env searched
display_protocol_support-find_commands_example =
    display_protocol_support-find_commands searching where_is "ip,wg" "wireguard" "ip,wg"
      (record start { found = [] }) (λ item t. refl) refl
