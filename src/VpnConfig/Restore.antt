-- ===== src/VpnConfig/Restore.antt =====
-- A whole configuration that is written and read, and one with a timeout (vpn_config.c).
use vpn_mgr.Base.{
  ℕ, String, ◌<>◌, ◌≡◌, refl, ◌∙◌, ap, true, false, some, List, ◌∷◌, arith, ltb, ◌<◌, if◌then◌else◌,
}
use vpn_mgr.Base.Text.{valid, begins, concat, append_assoc}
use vpn_mgr.Base.Chars.{case_eq, show}
use vpn_mgr.Process.{◌>>=◌, Flags, Env, State, Stream, open_stream, ret}
use vpn_mgr.Vpn.{Vpn}
use vpn_mgr.VpnConfig.Fields.{
  keep_local, keep_remote, local_address-step, remote_dev-step, dns-step, client_id-step,
  user_name-step, password-step, remote_search_path-step, client_cert-step, client_key-step,
  verify_cert-step, conf_file-step, up_file-step, down_file-step, server-step, allowed_ips-step,
  protocol-step, local_su-step, remote_su-step,
}
use vpn_mgr.VpnConfig.Read.{Conf, comma_list, apply_pair, read_config}
use vpn_mgr.VpnConfig.RoundTrip.{
  ReadsLines, is_key, quiet_reads, read_text-line, is_plain, read_text, read_text-nil, keep,
}
use vpn_mgr.VpnConfig.Write.{saved_path, line, timeout_line, config_pieces, conf_path}

-- A path that can be written and read: its saved form is plain, and it does not begin with `~/`.
abbrev pub PlainPath : String → String → Type 0
PlainPath home path = (is_plain (saved_path (home <> "/") path) ≡ true) × (begins path "~/" ≡ false)

pub record IsWritable (home : String) (v : Vpn) : Type 0 where
  pub server : is_plain v.server ≡ true
  pub client_cert : PlainPath home v.client_cert
  pub client_key : PlainPath home v.client_key
  pub verify_cert : PlainPath home v.verify_cert
  pub conf_file : PlainPath home v.conf_file
  pub up_file : PlainPath home v.up_file
  pub down_file : PlainPath home v.down_file
  pub local_address : is_plain v.local_address ≡ true
  pub allowed_ips : is_plain v.allowed_ips ≡ true
  pub remote_dev : is_plain v.remote_dev ≡ true
  pub dns : is_plain v.dns ≡ true
  pub client_id : is_plain v.client_id ≡ true
  pub user_name : is_plain v.user_name ≡ true
  pub password : is_plain v.password ≡ true
  pub remote_search_path : is_plain v.remote_search_path ≡ true
  pub timeout : v.timeout ≡ 0

-- The state `c` with what a file keeps of `v` and `f` put in.
unfoldable pub restored : Vpn → Flags → Conf → Conf
restored v f c = record {
  vpn = record c.vpn {
    server = v.server;
    client_cert = keep v.client_cert c.vpn.client_cert;
    client_key = keep v.client_key c.vpn.client_key;
    verify_cert = keep v.verify_cert c.vpn.verify_cert;
    conf_file = keep v.conf_file c.vpn.conf_file;
    up_file = keep v.up_file c.vpn.up_file;
    down_file = keep v.down_file c.vpn.down_file;
    local_address = keep v.local_address c.vpn.local_address;
    allowed_ips =
        if valid v.allowed_ips
        then comma_list c.vpn.allowed_ips v.allowed_ips
        else c.vpn.allowed_ips;
    remote_dev = keep v.remote_dev c.vpn.remote_dev;
    dns = keep v.dns c.vpn.dns;
    client_id = keep v.client_id c.vpn.client_id;
    user_name = keep v.user_name c.vpn.user_name;
    password = keep v.password c.vpn.password;
    remote_search_path = keep v.remote_search_path c.vpn.remote_search_path;
    tcp = if v.tcp then true else c.vpn.tcp;
  };
  flags = keep_remote f.remote_su f.remote_sudo (keep_local f.su f.sudo c.flags);
}

lt→ltb : (a b : ℕ) → a < b → ltb a b ≡ true
lt→ltb a b h = ground arith

regroup :
    (t : ℕ) (choice rest : String)
    → ("Timeout=" <> show t) <> (line "LocalSU" choice <> rest)
      ≡ line "Timeout" (show t <> "LocalSU=" <> choice) <> rest
regroup t choice rest = simp append_assoc (
    cc (
      append_assoc "Timeout" "=" (show t <> "LocalSU" <> "=" <> choice <> "\n" <> rest),
      append_assoc "LocalSU" "=" (choice <> "\n" <> rest),
    ))

no_timeout :
    (env : Env) (timeout : ℕ) (more : List String) (c : Conf)
    → timeout ≡ 0
    → read_text env (concat (timeout_line timeout more)) c ≡ read_text env (concat more) c
no_timeout env timeout more c h = rw h refl

module _ (env : Env) (L : ReadsLines env) where
  -- Given that libUseful splits, strips and parses plain `key=value` lines as documented, and
  -- that the configuration has no timeout and plain texts and paths: reading the text that is
  -- written for a context and flags into any context and flags restores the server, each text
  -- and path that was not empty, TCP, and the choices of `su` and `sudo`.
  pub read_text-config_pieces :
      (v : Vpn) (f : Flags) (c : Conf)
      → IsWritable env.home_dir v
      → read_text env (concat (config_pieces (env.home_dir <> "/") v f)) c ≡ restored v f c
  unfolding config_pieces restored
  read_text-config_pieces v f c w =
      server-step env L v.server _ c w.server
      ∙ client_cert-step env L v.client_cert _ _ w.client_cert.0 w.client_cert.1
      ∙ client_key-step env L v.client_key _ _ w.client_key.0 w.client_key.1
      ∙ verify_cert-step env L v.verify_cert _ _ w.verify_cert.0 w.verify_cert.1
      ∙ conf_file-step env L v.conf_file _ _ w.conf_file.0 w.conf_file.1
      ∙ up_file-step env L v.up_file _ _ w.up_file.0 w.up_file.1
      ∙ down_file-step env L v.down_file _ _ w.down_file.0 w.down_file.1
      ∙ local_address-step env L v.local_address _ _ w.local_address
      ∙ allowed_ips-step env L v.allowed_ips _ _ w.allowed_ips
      ∙ remote_dev-step env L v.remote_dev _ _ w.remote_dev
      ∙ dns-step env L v.dns _ _ w.dns
      ∙ client_id-step env L v.client_id _ _ w.client_id
      ∙ user_name-step env L v.user_name _ _ w.user_name
      ∙ password-step env L v.password _ _ w.password
      ∙ remote_search_path-step env L v.remote_search_path _ _ w.remote_search_path
      ∙ no_timeout env v.timeout _ _ w.timeout
      ∙ protocol-step env L v.tcp _ _
      ∙ local_su-step env L f.su f.sudo _ _
      ∙ remote_su-step env L f.remote_su f.remote_sudo _ _
      ∙ read_text-nil env L _

  -- Given that libUseful splits, strips and parses plain `key=value` lines as documented: the
  -- line of a timeout above 0, which has no newline, takes the line of the local choice of `su`
  -- or `sudo` behind it for the rest of its value where that value is plain, and the choice is
  -- not read.
  pub timeout_swallows :
      (t : ℕ) (choice : String) (more : List String) (c : Conf)
      → 0 < t
      → is_plain (show t <> "LocalSU=" <> choice) ≡ true
      → read_text env (concat (timeout_line t (line "LocalSU" choice ∷ more))) c
        ≡ read_text env (concat more) (record c {
          vpn = record c.vpn { timeout = env.parse_duration (show t <> "LocalSU=" <> choice) };
        })
  unfolding apply_pair case_eq is_key concat
  timeout_swallows t choice more c h p = rw (lt→ltb 0 t h) (
      ap (λ text. read_text env text c) (regroup t choice (concat more))
      ∙ read_text-line env L "Timeout" (show t <> "LocalSU=" <> choice) (concat more) c refl p)

module _ (env : Env) (L : ReadsLines env) where
  -- Given that libUseful splits, strips and parses plain `key=value` lines as documented, and
  -- that the configuration has no timeout and plain texts and paths: `ReadConfig`, when the
  -- stream it opens gives the lines that `WriteConfig` makes of a context and flags, returns
  -- with the server, each text and path that was not empty, TCP and the choices of `su` and
  -- `sudo` restored, in the context and in the flags.
  pub read_config-restored :
      (v w : Vpn) (f : Flags) (s : State) (file : Stream)
      → IsWritable env.home_dir v
      → env.stream (open_stream (conf_path env.home_dir w.name) "r" ∷ s.trace) ≡ some file
      → file.reads ≡ quiet_reads (env.read_lines (concat (config_pieces (env.home_dir <> "/") v f)))
      → let c = restored v f (record { vpn = w; flags = s.flags }) in
        ((read_config env w s).0 ≡ ret c.vpn) × ((read_config env w s).1.flags ≡ c.flags)
  unfolding read_config read_text ◌>>=◌
  read_config-restored v w f s file fine opened lines =
      let p = read_text-config_pieces env L v f (record { vpn = w; flags = s.flags }) fine in
      rw (opened, read_config)
        (rw lines (ap (λ (c : Conf). ret c.vpn) p, ap (λ (c : Conf). c.flags) p))
