-- ===== src/SslServer/Auth/Laws.antt =====
-- Who is let in by `SSLAuth` (ssl_server.c).
use vpn_mgr.Base.{String, ◌≡◌, Bool, true, false, ◌&&◌, ◌==◌, arith}
use vpn_mgr.Base.Chars.{case_eq, case_prefix, skip_space, drop}
use vpn_mgr.Base.Text.{valid}
use vpn_mgr.Process.{Env}
use vpn_mgr.SslServer.Auth.{Client, authorized, in_string_list}

-- The client has a name and a certificate that was verified.
abbrev pub verified : Client → Bool
verified c = valid c.common_name && c.certificate_verify == "OK"

module _ (env : Env) (is_user : String → Bool) (auth : String) (c : Client) where
  -- Unless `ServerAuth` is `open` or begins with `ip-only:`, a client that is authorized has a
  -- name and a certificate that was verified.
  authorized-verified :
      case_eq auth "open" ≡ false
      → case_prefix auth "ip-only:" ≡ false
      → authorized env is_user auth c ≡ true
      → verified c ≡ true
  unfolding authorized
  authorized-verified o p h = ground arith

  -- Unless `ServerAuth` is `open`, a client that is authorized has a name.
  authorized-named :
      case_eq auth "open" ≡ false
      → authorized env is_user auth c ≡ true
      → valid c.common_name ≡ true
  unfolding authorized
  authorized-named o h = ground arith

  -- If `ServerAuth` is a list of users behind `users:`, exactly the clients with a name and a
  -- verified certificate whose name is in the list are authorized.
  authorized_users :
      valid auth ≡ true
      → case_eq auth "open" ≡ false
      → case_eq auth "cert" ≡ false
      → case_eq auth "system" ≡ false
      → case_prefix auth "users:" ≡ true
      → authorized env is_user auth c
        ≡ (verified c && in_string_list env c.common_name (skip_space (drop 6 auth)))
  unfolding authorized
  authorized_users v o e y u = ground arith
