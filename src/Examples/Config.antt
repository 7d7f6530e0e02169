-- ===== src/Examples/Config.antt =====
-- A configuration that is written and read back (vpn_config.c).
use vpn_mgr.Base.{String, ◌≡◌, refl, true, some, [], ◌∷◌, arith}
use vpn_mgr.Base.Chars.{show}
use vpn_mgr.Base.Text.{strip_prefix, concat}
use vpn_mgr.Process.{Env, Flags, Stream, ret, ◌>>=◌, access, f_ok, r_ok, copy_file, chmod_file}
use vpn_mgr.Sample.Reader.{sample_reads}
use vpn_mgr.Sample.{sample_env, no_global_flags, start, stream_of, split_lines}
use vpn_mgr.Vpn.{Vpn, fresh, act_connect}
use vpn_mgr.VpnConfig.Files.{conf_dir, path_valid, keep_copy, add_config}
use vpn_mgr.VpnConfig.Private.{copies, all_private, add_config-Guards}
use vpn_mgr.VpnConfig.Read.{Conf, read_config}
use vpn_mgr.VpnConfig.Restore.{IsWritable, restored, timeout_swallows, read_config-restored}
use vpn_mgr.VpnConfig.RoundTrip.{is_plain, read_text, quiet_reads}
use vpn_mgr.VpnConfig.Write.{saved_path, config_pieces, line, timeout_line}

-- A connection through Wireguard.
abbrev home_vpn : Vpn
home_vpn = record (fresh act_connect "home" "wg:vpn.example.com:51820") {
  client_key = "/root/keys/home.key";
  verify_cert = "/etc/vpn/server.pub";
  local_address = "10.0.0.2";
  allowed_ips = "10.0.0.0/24,192.168.1.0/24";
  dns = "10.0.0.1";
}

abbrev some_flags : Flags
some_flags = record no_global_flags { sudo = true; remote_su = true }

abbrev home_text : String
home_text = concat (config_pieces "/root/" home_vpn some_flags)

home-IsWritable : IsWritable "/root" home_vpn
unfolding is_plain saved_path strip_prefix fresh
home-IsWritable = record {
  server = refl;
  client_cert = (refl, refl);
  client_key = (refl, refl);
  verify_cert = (refl, refl);
  conf_file = (refl, refl);
  up_file = (refl, refl);
  down_file = (refl, refl);
  local_address = refl;
  allowed_ips = refl;
  remote_dev = refl;
  dns = refl;
  client_id = refl;
  user_name = refl;
  password = refl;
  remote_search_path = refl;
  timeout = refl;
}

-- The file gives the lines of the configuration.
abbrev home_file : Stream
home_file =
    stream_of 7 (quiet_reads (split_lines (concat (config_pieces "/root/" home_vpn some_flags))))

abbrev reading_env : Env
reading_env = sample_env (λ trace. some home_file) (λ trace. true)

abbrev empty_vpn : Vpn
empty_vpn = fresh act_connect "home" ""

abbrev empty_conf : Conf
empty_conf = record { vpn = empty_vpn; flags = no_global_flags }

read_config-restored_example :
    let c = restored home_vpn some_flags empty_conf in
    ((read_config reading_env empty_vpn start).0 ≡ ret c.vpn)
    × ((read_config reading_env empty_vpn start).1.flags ≡ c.flags)
unfolding sample_env
read_config-restored_example =
    read_config-restored reading_env (sample_reads (λ trace. some home_file) (λ trace. true))
      home_vpn empty_vpn some_flags start home_file home-IsWritable refl refl

-- What a file keeps of the connection, field by field.
restored_test :
    let c = restored home_vpn some_flags empty_conf in
    (c.vpn.client_key ≡ "/root/keys/home.key")
    × (c.vpn.allowed_ips ≡ "10.0.0.0/24,192.168.1.0/24")
    × (c.flags.sudo ≡ true)
    × (c.flags.remote_su ≡ true)
unfolding restored fresh
restored_test = (refl, refl, refl, refl)

timeout_swallows_example :
    read_text reading_env (concat (timeout_line 30 (line "LocalSU" "none" ∷ []))) empty_conf
    ≡ read_text reading_env
        (concat [])
        (record empty_conf { vpn = record empty_vpn { timeout = 60 } })
unfolding sample_env is_plain show
timeout_swallows_example =
    timeout_swallows reading_env (sample_reads (λ trace. some home_file) (λ trace. true)) 30 "none"
      [] empty_conf (omega arith) refl

-- Two files are copied.
copied_test :
    keep_copy reading_env "/root/keys/home.key" "/root/.config/vpn_mgr/home/home.key" start ≡ (
      ret "/root/.config/vpn_mgr/home/home.key",
      record start {
        trace =
            chmod_file "/root/.config/vpn_mgr/home/home.key" "0600"
            ∷ copy_file "/root/keys/home.key" "/root/.config/vpn_mgr/home/home.key"
            ∷ access "/root/keys/home.key" r_ok
            ∷ access "/root/keys/home.key" f_ok
            ∷ [];
      },
    )
unfolding keep_copy path_valid sample_env ◌>>=◌
copied_test = refl

add_config-Guards_example :
    copies (conf_dir reading_env.home_dir "home") (add_config reading_env home_vpn start).1.trace
    ≡ all_private
unfolding copies fresh
add_config-Guards_example = add_config-Guards reading_env home_vpn start refl
