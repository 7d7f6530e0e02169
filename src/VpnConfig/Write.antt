-- ===== src/VpnConfig/Write.antt =====
-- `SaveFilePath` and `WriteConfig` (vpn_config.c): the texts that are written, in order.
use vpn_mgr.Base.{
  ℕ, String, ◌<>◌, Bool, true, false, Option, none, some, List, [], ◌∷◌, ltb, if◌then◌else◌,
}
use vpn_mgr.Base.Chars.{show}
use vpn_mgr.Base.Text.{valid, strip_prefix}
use vpn_mgr.Process.{
  Flags, Env, Stream, M, ◌>>=◌, ◌>>◌, pure, emit, get_flags, ask_stream, open_stream, write, close,
  make_dir,
}
use vpn_mgr.Vpn.{Vpn}

-- A path below the home directory, which ends in `/`, is written from `~/` on.
unfoldable pub saved_path : String → String → String
saved_path home path = elim (strip_prefix home path) [ none ↦ path | some rest ↦ "~/" <> rest ]

abbrev pub line : String → String → String
line key value = key <> "=" <> value <> "\n"

-- `SaveFilePath`
abbrev pub path_line : String → String → String → List String → List String
path_line home key path more = if valid path then line key (saved_path home path) ∷ more else more

abbrev pub text_line : String → String → List String → List String
text_line key value more = if valid value then line key value ∷ more else more

-- The format's text ends behind `%ld`, so this line has no newline.
abbrev pub timeout_line : ℕ → List String → List String
timeout_line timeout more = if ltb 0 timeout then ("Timeout=" <> show timeout) ∷ more else more

-- The `switch` on two of the bits, which has no case for both.
abbrev pub su_line : String → Bool → Bool → List String → List String
su_line key false false more = line key "none" ∷ more
su_line key true false more = line key "su" ∷ more
su_line key false true more = line key "sudo" ∷ more
su_line key true true more = more

abbrev pub flag_lines : Flags → List String
flag_lines f = su_line "LocalSU" f.su f.sudo (su_line "RemoteSU" f.remote_su f.remote_sudo [])

abbrev pub detail_lines : Vpn → Flags → List String
detail_lines v f = text_line "LocalAddress" v.local_address (
    text_line "AllowedIPs" v.allowed_ips (
      text_line "RemoteDev" v.remote_dev (
        text_line "DNS" v.dns (
          text_line "ClientID" v.client_id (
            text_line "UserName" v.user_name (
              text_line "Password" v.password (
                text_line "RemoteSearchPath" v.remote_search_path (
                  timeout_line v.timeout
                    (if v.tcp then line "Protocol" "tcp" ∷ flag_lines f else flag_lines f)))))))))

-- What the calls of `STREAMWriteLine` write. `home` ends in `/`.
unfoldable pub config_pieces : String → Vpn → Flags → List String
unfolding saved_path show
config_pieces home v f =
    line "Server" v.server
    ∷ path_line home "ClientCert" v.client_cert (
        path_line home "ClientKey" v.client_key (
          path_line home "VerifyCert" v.verify_cert (
            path_line home "ConfFile" v.conf_file (
              path_line home "UpFile" v.up_file
                (path_line home "DownFile" v.down_file (detail_lines v f))))))

unfoldable pub write_all : ℕ → List String → M (Unit {0})
write_all id [] = pure tt
write_all id (piece ∷ pieces) = emit (write id piece) >> write_all id pieces

abbrev pub conf_path : String → String → String
conf_path home name = home <> "/.config/vpn_mgr/" <> name <> "/" <> name <> ".conf"

module _ (env : Env) where
  unfoldable pub write_pieces : List String → Option Stream → M (Unit {0})
  write_pieces pieces none = pure tt
  write_pieces pieces (some s) = write_all s.id pieces >> emit (close s.id)

  unfoldable pub write_config : Vpn → M (Unit {0})
  unfolding write_pieces
  write_config v = do
    let home = env.home_dir <> "/"
    emit (make_dir (conf_path home v.name) "0700")
    s ← ask_stream env (open_stream (conf_path home v.name) "w")
    f ← get_flags
    write_pieces (config_pieces home v f) s
