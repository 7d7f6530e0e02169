-- ===== src/Main/Saved.antt =====
-- A connection that one run of the program saves and a later run makes (main.c, vpn_config.c).
use Prim.Native.String.append
use mathlib.Core.Path.{subst}
use vpn_mgr.Base.{String, ◌<>◌, ◌≡◌, refl, sym, ◌∙◌, ap, true, inl, inr, some, ◌∷◌}
use vpn_mgr.Base.Text.{valid, concat}
use vpn_mgr.Main.{Inputs, connect, start_vpn}
use vpn_mgr.Process.{Env, Flags, State, Stream, ret, open_stream, close, ◌>>=◌}
use vpn_mgr.Vpn.{Vpn, fresh, act_connect}
use vpn_mgr.VpnConfig.Files.{conf_dir, add_config}
use vpn_mgr.VpnConfig.Read.{Conf, read_config}
use vpn_mgr.VpnConfig.Restore.{PlainPath, IsWritable, restored, read_text-config_pieces}
use vpn_mgr.VpnConfig.RoundTrip.{ReadsLines, quiet_reads, read_text}
use vpn_mgr.VpnConfig.Saved.{Kept, Saved, Opens, add_config-Stored}
use vpn_mgr.VpnConfig.Write.{config_pieces, conf_path}
use vpn_mgr.VpnConfig.Written.{file_text}

PlainPath-Kept :
    (home path copy kept : String)
    → Kept path copy kept
    → PlainPath home path
    → PlainPath home copy
    → PlainPath home kept
PlainPath-Kept home path copy kept (inl e) p q = subst (PlainPath home) (sym e) p
PlainPath-Kept home path copy kept (inr e) p q = subst (PlainPath home) (sym e) q

-- The copies' paths can be written and read.
pub record PlainCopies (home name : String) : Type 0 where
  pub cert : PlainPath home (conf_dir home name <> name <> ".crt")
  pub key : PlainPath home (conf_dir home name <> name <> ".key")
  pub server : PlainPath home (conf_dir home name <> name <> ".server")

IsWritable-Saved :
    (home : String) (v w : Vpn)
    → IsWritable home v
    → PlainCopies home v.name
    → Saved home v w
    → IsWritable home w
IsWritable-Saved home v w p q s = subst (IsWritable home) (sym s.rest) record {
  server = p.server;
  client_cert =
      PlainPath-Kept home v.client_cert _ w.client_cert s.client_cert p.client_cert q.cert;
  client_key = PlainPath-Kept home v.client_key _ w.client_key s.client_key p.client_key q.key;
  verify_cert =
      PlainPath-Kept home v.verify_cert _ w.verify_cert s.verify_cert p.verify_cert q.server;
  conf_file = p.conf_file;
  up_file = p.up_file;
  down_file = p.down_file;
  local_address = p.local_address;
  allowed_ips = p.allowed_ips;
  remote_dev = p.remote_dev;
  dns = p.dns;
  client_id = p.client_id;
  user_name = p.user_name;
  password = p.password;
  remote_search_path = p.remote_search_path;
  timeout = p.timeout;
}

-- The context that a run of `connect` with the name starts from, and the flags then.
abbrev pub asked : String → Flags → Conf
asked name f = record { vpn = fresh act_connect name ""; flags = f }

module _ (env : Env) (L : ReadsLines env) (i : Inputs) where
  -- The state after the file was read.
  abbrev read_back : String → Stream → Flags → State → State
  read_back name back f t = record t {
    flags = f;
    trace = close back.id ∷ open_stream (conf_path env.home_dir name) "r" ∷ t.trace;
  }

  -- What was saved is read back.
  abbrev Reads : Vpn → String → Flags → State → Stream → Type 0
  Reads w name f t back =
      (env.stream (open_stream (conf_path env.home_dir name) "r" ∷ t.trace) ≡ some back)
      × (back.reads
          ≡ quiet_reads (env.read_lines (concat (config_pieces (env.home_dir <> "/") w f))))

  read_config-exact :
      (w : Vpn) (name : String) (f : Flags) (t : State) (back : Stream)
      → IsWritable env.home_dir w
      → Reads w name f t back
      → read_config env (fresh act_connect name "") t
        ≡ (let c = restored w f (asked name t.flags) in (ret c.vpn, read_back name back c.flags t))
  unfolding read_config read_text fresh ◌>>=◌
  read_config-exact w name f t back p (o, l) =
      rw (o, read_config)
        (rw l (
          ap (λ (c : Conf). (ret c.vpn, read_back name back c.flags t))
            (read_text-config_pieces env L w f (asked name t.flags) p)))

  connect-restored :
      (w : Vpn) (name : String) (f : Flags) (t : State) (back : Stream)
      → IsWritable env.home_dir w
      → valid w.server ≡ true
      → Reads w name f t back
      → connect env i (fresh act_connect name "") t ≡ (
          let c = restored w f (asked name t.flags) in
          start_vpn env i (env.get_token w.server ":").0 c.vpn (read_back name back c.flags t))
  unfolding connect restored fresh ◌>>=◌
  connect-restored w name f t back p q r = rw (read_config-exact w name f t back p r) (rw q refl)

  -- Given that libUseful splits, strips and parses plain `key=value` lines as documented: where one
  -- run saves, by `AddConfig`, a connection with a URL, plain texts and paths and no timeout, in a
  -- stream that opens and to which nothing was written before, and a later run is asked to
  -- `connect` by that name alone and reads back what was written, `AddConfig` returns the
  -- connection with at most the paths of its three key files replaced by those of the copies, and
  -- `connect` starts the VPN of the saved URL with the context and the flags that are restored from
  -- that.
  pub connect-add_config :
      (v : Vpn) (s t : State) (file back : Stream)
      → IsWritable env.home_dir v
      → PlainCopies env.home_dir v.name
      → valid v.server ≡ true
      → Opens env v file
      → file_text file.id s.trace ≡ ""
      → t.trace ≡ (add_config env v s).1.trace
      → env.stream (open_stream (conf_path env.home_dir v.name) "r" ∷ t.trace) ≡ some back
      → back.reads ≡ quiet_reads (env.read_lines (file_text file.id t.trace))
      → (w : Vpn) × ((add_config env v s).0 ≡ ret w)
        × Saved env.home_dir v w
        × (let c = restored w s.flags (asked v.name t.flags) in
            connect env i (fresh act_connect v.name "") t
            ≡ start_vpn env i (env.get_token v.server ":").0 c.vpn record t {
              flags = c.flags;
              trace = close back.id ∷ open_stream (conf_path env.home_dir v.name) "r" ∷ t.trace;
            })
  connect-add_config v s t file back p q h opens empty same o l =
      let a = add_config-Stored env v file s opens in
      let w = a.value in
      let server : w.server ≡ v.server = ap (λ (x : Vpn). x.server) a.saved.rest in
      let text : file_text file.id t.trace
          ≡ concat (config_pieces (env.home_dir <> "/") w s.flags) =
        ap (λ u. file_text file.id u) same
        ∙ a.text
        ∙ ap (λ x. x <> concat (config_pieces (env.home_dir <> "/") w s.flags)) empty
        ∙ append.nil _ in
      let lines = l ∙ ap (λ x. quiet_reads (env.read_lines x)) text in
      (
        w,
        a.returns,
        a.saved,
        connect-restored w v.name s.flags t back (IsWritable-Saved env.home_dir v w p q a.saved)
              (ap valid server ∙ h) (o, lines)
            ∙ ap
                (λ x.
                  let c = restored w s.flags (asked v.name t.flags) in
                  start_vpn env i (env.get_token x ":").0 c.vpn (read_back v.name back c.flags t))
                server,
      )
