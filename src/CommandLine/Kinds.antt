-- ===== src/CommandLine/Kinds.antt =====
-- `option_kind`: the chain of `strcmp` in the loop of `ParseCommandLine` (command_line.c).
use vpn_mgr.Base.{ℕ, String, true, false, ◌==◌, if◌then◌else◌}
use vpn_mgr.Process.{Flags}
use vpn_mgr.Vpn.{Vpn}

-- What an option does, with how it reads the argument behind it.
pub data Kind : Type 0 where
  text_option : (Vpn → String → Vpn) → Kind
  number_option : (Vpn → ℕ → Vpn) → Kind
  duration_option : (Vpn → ℕ → Vpn) → Kind
  vpn_flag : (Vpn → Vpn) → Kind
  global_flag : (Flags → Flags) → Kind
  unknown_option : Kind

unfoldable pub option_kind : String → Kind
option_kind a =
    if a == "-c"
    then text_option (λ v x. record v { conf_file = x })
    else if a == "-conf"
    then text_option (λ v x. record v { conf_file = x })
    else if a == "-a"
    then text_option (λ v x. record v { allowed_ips = x })
    else if a == "-A"
    then text_option (λ v x. record v { remote_allowed_ips = x })
    else if a == "-d"
    then text_option (λ v x. record v { dev = x })
    else if a == "-dev"
    then text_option (λ v x. record v { dev = x })
    else if a == "-ldev"
    then text_option (λ v x. record v { dev = x })
    else if a == "-local-dev"
    then text_option (λ v x. record v { dev = x })
    else if a == "-D"
    then text_option (λ v x. record v { remote_dev = x })
    else if a == "-rdev"
    then text_option (λ v x. record v { remote_dev = x })
    else if a == "-remote-dev"
    then text_option (λ v x. record v { remote_dev = x })
    else if a == "-L"
    then text_option (λ v x. record v { local_address = x })
    else if a == "-R"
    then text_option (λ v x. record v { remote_address = x })
    else if a == "-local-address"
    then text_option (λ v x. record v { local_address = x })
    else if a == "-remote-address"
    then text_option (λ v x. record v { remote_address = x })
    else if a == "-laddr"
    then text_option (λ v x. record v { local_address = x })
    else if a == "-raddr"
    then text_option (λ v x. record v { remote_address = x })
    else if a == "-cid"
    then text_option (λ v x. record v { client_id = x })
    else if a == "-id"
    then text_option (λ v x. record v { client_id = x })
    else if a == "-user"
    then text_option (λ v x. record v { user_name = x })
    else if a == "-pass"
    then text_option (λ v x. record v { password = x })
    else if a == "-passwd"
    then text_option (λ v x. record v { password = x })
    else if a == "-password"
    then text_option (λ v x. record v { password = x })
    else if a == "-pw"
    then text_option (λ v x. record v { password = x })
    else if a == "-psk"
    then text_option (λ v x. record v { pre_shared_key = x })
    else if a == "-cert"
    then text_option (λ v x. record v { client_cert = x })
    else if a == "-key"
    then text_option (λ v x. record v { client_key = x })
    else if a == "-k"
    then text_option (λ v x. record v { client_key = x })
    else if a == "-server-key"
    then text_option (λ v x. record v { verify_cert = x })
    else if a == "-ca"
    then text_option (λ v x. record v { verify_cert = x })
    else if a == "-ciphers"
    then text_option (λ v x. record v { ciphers = x })
    else if a == "-dns"
    then text_option (λ v x. record v { dns = x })
    else if a == "-nodns"
    then global_flag (λ f. record f { nodns = true })
    else if a == "-mtu"
    then number_option (λ v n. record v { mtu = n })
    else if a == "-ppp-auth"
    then text_option (λ v x. record v { ppp_auth = x })
    else if a == "-ppp-speed"
    then number_option (λ v n. record v { line_speed = n })
    else if a == "-up"
    then text_option (λ v x. record v { up_file = x })
    else if a == "-down"
    then text_option (λ v x. record v { down_file = x })
    else if a == "-remote_path"
    then text_option (λ v x. record v { remote_search_path = x })
    else if a == "-local-sudo"
    then global_flag (λ f. record f { su = false; sudo = true })
    else if a == "-local-su"
    then global_flag (λ f. record f { sudo = false; su = true })
    else if a == "-remote-sudo"
    then global_flag (λ f. record f { remote_su = false; remote_sudo = true })
    else if a == "-remote-su"
    then global_flag (λ f. record f { remote_sudo = false; remote_su = true })
    else if a == "-s"
    then global_flag (λ f. record f { remote_su = true })
    else if a == "-S"
    then global_flag (λ f. record f { remote_sudo = true })
    else if a == "-tcp"
    then vpn_flag (λ v. record v { tcp = true })
    else if a == "-timeout"
    then duration_option (λ v n. record v { timeout = n })
    else if a == "-T"
    then duration_option (λ v n. record v { timeout = n })
    else if a == "-V"
    then vpn_flag (λ v. record v { verify_peer = true })
    else if a == "-verify"
    then vpn_flag (λ v. record v { verify_peer = true })
    else if a == "-N"
    then global_flag (λ f. record f { remote_su = false; remote_sudo = false })
    else if a == "-auth"
    then text_option (λ v x. record v { server_auth = x })
    else if a == "-debug"
    then global_flag (λ f. record f { debug = true })
    else if a == "-verbose"
    then global_flag (λ f. record f { verbose = true })
    else if a == "-version"
    then global_flag (λ f. record f { verbose = true })
    else if a == "--version"
    then global_flag (λ f. record f { verbose = true })
    else unknown_option
