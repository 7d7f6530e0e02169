-- ===== src/VpnConfig/Read.antt =====
-- `ReadFileConf`, `ReadConfigLine` and `ReadConfig` (vpn_config.c).
use vpn_mgr.Base.{String, ◌<>◌, true, false, Option, none, some, List, [], ◌∷◌, ◌==◌, if◌then◌else◌}
use vpn_mgr.Base.Chars.{case_eq}
use vpn_mgr.Base.Text.{valid, strip_prefix}
use vpn_mgr.Process.{
  Flags, Read, Env, Stream, M, ◌>>=◌, ◌>>◌, pure, emit, get_flags, put_flags, ask_stream,
  open_stream, close,
}
use vpn_mgr.Vpn.{Vpn}
use vpn_mgr.VpnConfig.Write.{conf_path}

-- What a configuration line changes: the context and `GlobalFlags`.
pub record Conf : Type 0 where
  pub vpn : Vpn
  pub flags : Flags

-- `ReadFileConf`: a leading `~/` stands for the home directory.
unfoldable pub read_path : String → String → String
read_path home value =
    if valid value
    then elim (strip_prefix "~/" value) [ none ↦ value | some rest ↦ home <> "/" <> rest ]
    else ""

-- `CommaList`
abbrev pub comma_list : String → String → String
comma_list old new = if valid old then old <> ", " <> new else new

infixl 20 ◌▸◌
abbrev pub ◌▸◌ : {A B : Type 0} → A → (A → B) → B
x ▸ f = f x

abbrev pub on : {A : Type 0} → String → String → (A → A) → A → A
on key word change x = if case_eq key word then change x else x

unfoldable pub set_field : Env → String → String → Vpn → Vpn
unfolding read_path
set_field env key value vpn =
    vpn
    ▸ on key "Server" (λ v. record v { server = value })
    ▸ on key "ClientCert" (λ v. record v { client_cert = read_path env.home_dir value })
    ▸ on key "ClientKey" (λ v. record v { client_key = read_path env.home_dir value })
    ▸ on key "VerifyCert" (λ v. record v { verify_cert = read_path env.home_dir value })
    ▸ on key "ServerCert" (λ v. record v { verify_cert = read_path env.home_dir value })
    ▸ on key "ConfFile" (λ v. record v { conf_file = read_path env.home_dir value })
    ▸ on key "UpFile" (λ v. record v { up_file = read_path env.home_dir value })
    ▸ on key "DownFile" (λ v. record v { down_file = read_path env.home_dir value })
    ▸ on key "LocalAddress" (λ v. record v { local_address = value })
    ▸ on key "AllowedIPs" (λ v. record v { allowed_ips = comma_list v.allowed_ips value })
    ▸ on key "RemoteDev" (λ v. record v { remote_dev = value })
    ▸ on key "ClientID" (λ v. record v { client_id = value })
    ▸ on key "UserName" (λ v. record v { user_name = value })
    ▸ on key "Password" (λ v. record v { password = value })
    ▸ on key "RemoteSearchPath" (λ v. record v { remote_search_path = value })
    ▸ on key "DNS" (λ v. record v { dns = value })
    ▸ on key "Timeout" (λ v. record v { timeout = env.parse_duration value })
    ▸ on key "Protocol" (λ v. record v { tcp = true })

-- The two flags are cleared, and then set by the value.
remote_flags : String → Flags → Flags
remote_flags value f =
    if value == "none"
    then record f { remote_su = false; remote_sudo = false }
    else if value == "su"
    then record f { remote_su = true; remote_sudo = false }
    else if value == "sudo"
    then record f { remote_su = false; remote_sudo = true }
    else record f { remote_su = false; remote_sudo = false }

local_flags : String → Flags → Flags
local_flags value f =
    if value == "none"
    then record f { su = false; sudo = false }
    else if value == "su"
    then record f { su = true; sudo = false }
    else if value == "sudo"
    then record f { su = false; sudo = true }
    else record f { su = false; sudo = false }

unfoldable pub set_flags : String → String → Flags → Flags
unfolding remote_flags local_flags
set_flags key value f =
    f ▸ on key "RemoteSU" (remote_flags value) ▸ on key "LocalSU" (local_flags value)

module _ (env : Env) where
  -- One name and its value.
  unfoldable pub apply_pair : String → String → Conf → Conf
  unfolding set_field set_flags
  apply_pair key value c = record {
    vpn = set_field env key value c.vpn;
    flags = set_flags key value c.flags;
  }

  unfoldable pub apply_pairs : List (String × String) → Conf → Conf
  unfolding apply_pair
  apply_pairs [] c = c
  apply_pairs ((key, value) ∷ more) c = apply_pairs more (apply_pair key value c)

  -- `ReadConfigLine`
  unfoldable pub read_config_line : String → Conf → Conf
  unfolding apply_pairs
  read_config_line text c = apply_pairs (env.pairs text) c

  -- The loop over the lines of the file.
  unfoldable pub read_config_lines : List Read → Conf → Conf
  unfolding read_config_line
  read_config_lines [] c = c
  read_config_lines (r ∷ more) c =
      read_config_lines more (read_config_line (env.trim_right r.line) c)

  unfoldable pub read_stream : Vpn → Option Stream → M Vpn
  unfolding read_config_lines
  read_stream v none = pure v
  read_stream v (some s) = do
    f ← get_flags
    let c = read_config_lines s.reads (record { vpn = v; flags = f })
    put_flags c.flags
    emit (close s.id)
    pure c.vpn

  unfoldable pub read_config : Vpn → M Vpn
  unfolding read_stream
  read_config v = do
    s ← ask_stream env (open_stream (conf_path env.home_dir v.name) "r")
    read_stream v s
