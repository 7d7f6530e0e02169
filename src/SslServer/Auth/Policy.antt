-- ===== src/SslServer/Auth/Policy.antt =====
-- The methods of `ServerAuth`, and what each asks of a client (ssl_server.c, README.md).
use vpn_mgr.Base.{String, ◌≡◌, Bool, true, false, not, ◌&&◌, if◌then◌else◌, arith}
use vpn_mgr.Base.Chars.{case_eq, case_prefix, skip_space, drop}
use vpn_mgr.Base.Text.{valid}
use vpn_mgr.Process.{Env}
use vpn_mgr.SslServer.Auth.Laws.{verified}
use vpn_mgr.SslServer.Auth.{Client, authorized, in_string_list}

-- The methods by their names, with the lists that stand behind them.
pub data Method : Type 0 where
  anyone : Method
  any_certificate : Method
  system_users : Method
  listed_users : String → Method
  certified_addresses : String → Method
  trusted_addresses : String → Method
  no_method : Method

-- Without `ServerAuth` the method is that of `cert`.
abbrev pub method_of : String → Method
method_of auth =
    if not (valid auth)
    then any_certificate
    else if case_eq auth "open"
    then anyone
    else if case_eq auth "cert"
    then any_certificate
    else if case_eq auth "system"
    then system_users
    else if case_prefix auth "users:"
    then listed_users (skip_space (drop 6 auth))
    else if case_prefix auth "ips:"
    then certified_addresses (skip_space (drop 4 auth))
    else if case_prefix auth "ip-only:"
    then trusted_addresses (skip_space (drop 8 auth))
    else no_method

module _ (env : Env) (is_user : String → Bool) (c : Client) where
  abbrev pub permits : Method → Bool
  permits anyone = true
  permits any_certificate = verified c
  permits system_users = verified c && is_user c.common_name
  permits (listed_users users) = verified c && in_string_list env c.common_name users
  permits (certified_addresses ips) = verified c && in_string_list env c.peer_ip ips
  permits (trusted_addresses ips) = valid c.common_name && in_string_list env c.peer_ip ips
  permits no_method = false

  -- A client is authorized exactly if the method of `ServerAuth` permits it: `open` permits every
  -- client; `cert`, as no `ServerAuth` at all, one with a name and a verified certificate; `system`
  -- such a one whose name is a user's, `users:` one whose name is in the list behind it, `ips:` one
  -- whose address is in the list; `ip-only:` permits one with a name, verified or not, whose
  -- address is in the list; any other text permits nobody.
  pub authorized-permits :
      (auth : String) → authorized env is_user auth c ≡ permits (method_of auth)
  unfolding authorized
  authorized-permits auth = ground arith
