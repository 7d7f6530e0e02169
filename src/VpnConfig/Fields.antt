-- ===== src/VpnConfig/Fields.antt =====
-- What each line of a written configuration does when it is read.
use vpn_mgr.Base.{String, ◌<>◌, ◌≡◌, refl, Bool, true, false, ◌&&◌, List, ◌∷◌, if◌then◌else◌}
use vpn_mgr.Base.Chars.{case_eq}
use vpn_mgr.Base.Text.{valid, begins, concat}
use vpn_mgr.Process.{Flags, Env}
use vpn_mgr.VpnConfig.Paths.{read_path-saved_path}
use vpn_mgr.VpnConfig.Read.{Conf, apply_pair, comma_list}
use vpn_mgr.VpnConfig.RoundTrip.{
  ReadsLines, is_plain, is_key, read_text, read_text-line, text_line-step, path_line-step, keep,
}
use vpn_mgr.VpnConfig.Write.{saved_path, line, path_line, text_line, su_line}

-- Both flags are the written ones, unless both were set: then nothing is written.
abbrev pub keep_local : Bool → Bool → Flags → Flags
keep_local su sudo f = if su && sudo then f else record f { su = su; sudo = sudo }

abbrev pub keep_remote : Bool → Bool → Flags → Flags
keep_remote su sudo f = if su && sudo then f else record f { remote_su = su; remote_sudo = sudo }

module _ (env : Env) (L : ReadsLines env) where
  pub local_address-step :
      (x : String) (more : List String) (c : Conf)
      → is_plain x ≡ true
      → read_text env (concat (text_line "LocalAddress" x more)) c
        ≡ read_text env
            (concat more)
            (record c { vpn = record c.vpn { local_address = keep x c.vpn.local_address } })
  unfolding apply_pair case_eq is_key
  local_address-step x more c p =
      text_line-step env L "LocalAddress" x more c _ refl p (λ h. rw h refl) (λ h. rw h refl)

  pub remote_dev-step :
      (x : String) (more : List String) (c : Conf)
      → is_plain x ≡ true
      → read_text env (concat (text_line "RemoteDev" x more)) c
        ≡ read_text env
            (concat more)
            (record c { vpn = record c.vpn { remote_dev = keep x c.vpn.remote_dev } })
  unfolding apply_pair case_eq is_key
  remote_dev-step x more c p =
      text_line-step env L "RemoteDev" x more c _ refl p (λ h. rw h refl) (λ h. rw h refl)

  pub dns-step :
      (x : String) (more : List String) (c : Conf)
      → is_plain x ≡ true
      → read_text env (concat (text_line "DNS" x more)) c
        ≡ read_text env (concat more) (record c { vpn = record c.vpn { dns = keep x c.vpn.dns } })
  unfolding apply_pair case_eq is_key
  dns-step x more c p =
      text_line-step env L "DNS" x more c _ refl p (λ h. rw h refl) (λ h. rw h refl)

  pub client_id-step :
      (x : String) (more : List String) (c : Conf)
      → is_plain x ≡ true
      → read_text env (concat (text_line "ClientID" x more)) c
        ≡ read_text env
            (concat more)
            (record c { vpn = record c.vpn { client_id = keep x c.vpn.client_id } })
  unfolding apply_pair case_eq is_key
  client_id-step x more c p =
      text_line-step env L "ClientID" x more c _ refl p (λ h. rw h refl) (λ h. rw h refl)

  pub user_name-step :
      (x : String) (more : List String) (c : Conf)
      → is_plain x ≡ true
      → read_text env (concat (text_line "UserName" x more)) c
        ≡ read_text env
            (concat more)
            (record c { vpn = record c.vpn { user_name = keep x c.vpn.user_name } })
  unfolding apply_pair case_eq is_key
  user_name-step x more c p =
      text_line-step env L "UserName" x more c _ refl p (λ h. rw h refl) (λ h. rw h refl)

  pub password-step :
      (x : String) (more : List String) (c : Conf)
      → is_plain x ≡ true
      → read_text env (concat (text_line "Password" x more)) c
        ≡ read_text env
            (concat more)
            (record c { vpn = record c.vpn { password = keep x c.vpn.password } })
  unfolding apply_pair case_eq is_key
  password-step x more c p =
      text_line-step env L "Password" x more c _ refl p (λ h. rw h refl) (λ h. rw h refl)

  pub remote_search_path-step :
      (x : String) (more : List String) (c : Conf)
      → is_plain x ≡ true
      → read_text env (concat (text_line "RemoteSearchPath" x more)) c
        ≡ read_text env (concat more) (record c {
          vpn = record c.vpn { remote_search_path = keep x c.vpn.remote_search_path };
        })
  unfolding apply_pair case_eq is_key
  remote_search_path-step x more c p =
      text_line-step env L "RemoteSearchPath" x more c _ refl p (λ h. rw h refl) (λ h. rw h refl)

  pub client_cert-step :
      (x : String) (more : List String) (c : Conf)
      → is_plain (saved_path (env.home_dir <> "/") x) ≡ true
      → begins x "~/" ≡ false
      → read_text env (concat (path_line (env.home_dir <> "/") "ClientCert" x more)) c
        ≡ read_text env
            (concat more)
            (record c { vpn = record c.vpn { client_cert = keep x c.vpn.client_cert } })
  unfolding apply_pair case_eq is_key
  client_cert-step x more c p n =
      path_line-step env L "ClientCert" x more c _ refl p
        (λ h. rw (read_path-saved_path env.home_dir x h n) (rw h refl)) (λ h. rw h refl)

  pub client_key-step :
      (x : String) (more : List String) (c : Conf)
      → is_plain (saved_path (env.home_dir <> "/") x) ≡ true
      → begins x "~/" ≡ false
      → read_text env (concat (path_line (env.home_dir <> "/") "ClientKey" x more)) c
        ≡ read_text env
            (concat more)
            (record c { vpn = record c.vpn { client_key = keep x c.vpn.client_key } })
  unfolding apply_pair case_eq is_key
  client_key-step x more c p n =
      path_line-step env L "ClientKey" x more c _ refl p
        (λ h. rw (read_path-saved_path env.home_dir x h n) (rw h refl)) (λ h. rw h refl)

  pub verify_cert-step :
      (x : String) (more : List String) (c : Conf)
      → is_plain (saved_path (env.home_dir <> "/") x) ≡ true
      → begins x "~/" ≡ false
      → read_text env (concat (path_line (env.home_dir <> "/") "VerifyCert" x more)) c
        ≡ read_text env
            (concat more)
            (record c { vpn = record c.vpn { verify_cert = keep x c.vpn.verify_cert } })
  unfolding apply_pair case_eq is_key
  verify_cert-step x more c p n =
      path_line-step env L "VerifyCert" x more c _ refl p
        (λ h. rw (read_path-saved_path env.home_dir x h n) (rw h refl)) (λ h. rw h refl)

  pub conf_file-step :
      (x : String) (more : List String) (c : Conf)
      → is_plain (saved_path (env.home_dir <> "/") x) ≡ true
      → begins x "~/" ≡ false
      → read_text env (concat (path_line (env.home_dir <> "/") "ConfFile" x more)) c
        ≡ read_text env
            (concat more)
            (record c { vpn = record c.vpn { conf_file = keep x c.vpn.conf_file } })
  unfolding apply_pair case_eq is_key
  conf_file-step x more c p n =
      path_line-step env L "ConfFile" x more c _ refl p
        (λ h. rw (read_path-saved_path env.home_dir x h n) (rw h refl)) (λ h. rw h refl)

  pub up_file-step :
      (x : String) (more : List String) (c : Conf)
      → is_plain (saved_path (env.home_dir <> "/") x) ≡ true
      → begins x "~/" ≡ false
      → read_text env (concat (path_line (env.home_dir <> "/") "UpFile" x more)) c
        ≡ read_text env
            (concat more)
            (record c { vpn = record c.vpn { up_file = keep x c.vpn.up_file } })
  unfolding apply_pair case_eq is_key
  up_file-step x more c p n =
      path_line-step env L "UpFile" x more c _ refl p
        (λ h. rw (read_path-saved_path env.home_dir x h n) (rw h refl)) (λ h. rw h refl)

  pub down_file-step :
      (x : String) (more : List String) (c : Conf)
      → is_plain (saved_path (env.home_dir <> "/") x) ≡ true
      → begins x "~/" ≡ false
      → read_text env (concat (path_line (env.home_dir <> "/") "DownFile" x more)) c
        ≡ read_text env
            (concat more)
            (record c { vpn = record c.vpn { down_file = keep x c.vpn.down_file } })
  unfolding apply_pair case_eq is_key
  down_file-step x more c p n =
      path_line-step env L "DownFile" x more c _ refl p
        (λ h. rw (read_path-saved_path env.home_dir x h n) (rw h refl)) (λ h. rw h refl)

  pub server-step :
      (x : String) (more : List String) (c : Conf)
      → is_plain x ≡ true
      → read_text env (concat (line "Server" x ∷ more)) c
        ≡ read_text env (concat more) (record c { vpn = record c.vpn { server = x } })
  unfolding apply_pair case_eq is_key concat
  server-step x more c p = read_text-line env L "Server" x (concat more) c refl p

  -- The addresses are added to those that are there.
  pub allowed_ips-step :
      (x : String) (more : List String) (c : Conf)
      → is_plain x ≡ true
      → read_text env (concat (text_line "AllowedIPs" x more)) c
        ≡ read_text env (concat more) (record c {
          vpn = record c.vpn {
            allowed_ips = if valid x then comma_list c.vpn.allowed_ips x else c.vpn.allowed_ips;
          };
        })
  unfolding apply_pair case_eq is_key
  allowed_ips-step x more c p =
      text_line-step env L "AllowedIPs" x more c _ refl p (λ h. rw h refl) (λ h. rw h refl)

  pub protocol-step :
      (tcp : Bool) (more : List String) (c : Conf)
      → read_text env (concat (if tcp then line "Protocol" "tcp" ∷ more else more)) c
        ≡ read_text env
            (concat more)
            (record c { vpn = record c.vpn { tcp = if tcp then true else c.vpn.tcp } })
  unfolding apply_pair case_eq is_key is_plain concat
  protocol-step true more c = read_text-line env L "Protocol" "tcp" (concat more) c refl refl
  protocol-step false more c = refl

  pub local_su-step :
      (su sudo : Bool) (more : List String) (c : Conf)
      → read_text env (concat (su_line "LocalSU" su sudo more)) c
        ≡ read_text env (concat more) (record c { flags = keep_local su sudo c.flags })
  unfolding apply_pair case_eq is_key is_plain concat
  local_su-step false false more c = read_text-line env L "LocalSU" "none" (concat more) c refl refl
  local_su-step true false more c = read_text-line env L "LocalSU" "su" (concat more) c refl refl
  local_su-step false true more c = read_text-line env L "LocalSU" "sudo" (concat more) c refl refl
  local_su-step true true more c = refl

  pub remote_su-step :
      (su sudo : Bool) (more : List String) (c : Conf)
      → read_text env (concat (su_line "RemoteSU" su sudo more)) c
        ≡ read_text env (concat more) (record c { flags = keep_remote su sudo c.flags })
  unfolding apply_pair case_eq is_key is_plain concat
  remote_su-step false false more c =
      read_text-line env L "RemoteSU" "none" (concat more) c refl refl
  remote_su-step true false more c = read_text-line env L "RemoteSU" "su" (concat more) c refl refl
  remote_su-step false true more c =
      read_text-line env L "RemoteSU" "sudo" (concat more) c refl refl
  remote_su-step true true more c = refl
