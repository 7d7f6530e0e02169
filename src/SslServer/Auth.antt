-- ===== src/SslServer/Auth.antt =====
-- `SSLAuth` (ssl_server.c).
pub mod Laws
pub mod Policy
use Prim.Native.Nat.{bit_or}
use vpn_mgr.Base.{
  ℕ, String, ◌<>◌, Bool, true, false, not, ◌&&◌, Option, none, some, List, [], ◌∷◌, ◌==◌, eqb, any,
  if◌then◌else◌,
}
use vpn_mgr.Base.Chars.{case_eq, case_prefix, drop, skip_space}
use vpn_mgr.Base.Text.{valid}
use vpn_mgr.Common.{log_event}
use vpn_mgr.Process.{Env, M, ◌>>=◌, ◌>>◌, pure, log_okay, log_error}

-- The values of the client's stream that the code asks for.
pub record Client : Type 0 where
  pub id : ℕ
  pub peer_ip : String
  pub common_name : String
  pub certificate_verify : String
  pub certificate_issuer : String
  pub cipher_details : String

abbrev pub ssl_auth_certificate : ℕ
ssl_auth_certificate = 1

abbrev pub ssl_auth_user : ℕ
ssl_auth_user = 2

abbrev pub ssl_auth_okay : ℕ
ssl_auth_okay = 3

module _ (env : Env) where
  -- `InStringList(item, list, ",")`
  abbrev pub in_string_list : String → String → Bool
  in_string_list item list = any (λ token. item == token) (env.tokens list ",")

  abbrev pub listed_behind : ℕ → String → String → Bool
  listed_behind n item auth = in_string_list item (skip_space (drop n auth))

  -- What a verified certificate gives.
  unfoldable pub certificate_flag : Client → ℕ
  certificate_flag c =
      if valid c.common_name && c.certificate_verify == "OK" then ssl_auth_certificate else 0

  -- What the chain on `ServerAuth` gives to a client that has a name. `is_user` is the answer of
  -- `getpwnam`.
  unfoldable pub named_flag : (String → Bool) → String → Client → ℕ
  named_flag is_user auth c =
      if case_eq auth "cert"
      then ssl_auth_user
      else if case_eq auth "system"
      then (if is_user c.common_name then ssl_auth_user else 0)
      else if case_prefix auth "users:"
      then (if listed_behind 6 c.common_name auth then ssl_auth_user else 0)
      else if case_prefix auth "ips:"
      then (if listed_behind 4 c.peer_ip auth then ssl_auth_user else 0)
      else if case_prefix auth "ip-only:"
      then (if listed_behind 8 c.peer_ip auth then ssl_auth_okay else 0)
      else 0

  -- What `ServerAuth` gives: the user's flag to all if it is not set.
  unfoldable pub server_auth_flag : (String → Bool) → String → Client → ℕ
  server_auth_flag is_user auth c =
      if valid auth
      then bit_or (if case_eq auth "open" then ssl_auth_okay else 0)
          (if valid c.common_name then named_flag is_user auth c else 0)
      else ssl_auth_user

  unfoldable pub authorized : (String → Bool) → String → Client → Bool
  unfolding certificate_flag named_flag server_auth_flag
  authorized is_user auth c =
      eqb (bit_or (certificate_flag c) (server_auth_flag is_user auth c)) ssl_auth_okay

  -- What is logged before the decision.
  unfoldable pub log_client : String → Client → M (Unit {0})
  log_client auth c =
      if valid c.common_name
      then log_event log_okay "NEW CLIENT:" (
          c.common_name <> "@" <> c.peer_ip <> "  CertificateStatus: " <> c.certificate_verify
          <> ". CertificateIssuer: " <> c.certificate_issuer <> ". Encryption: " <> c.cipher_details
          <> ". RequiredAuthLevel: " <> auth)
      else if valid auth
      then log_event log_okay "NEW CLIENT:"
          (c.peer_ip <> " Lacks Certificate. RequiredAuthLevel: " <> auth)
      else pure tt

  -- What is logged where the client is in none of the lists.
  unfoldable pub log_list : String → Client → M (Unit {0})
  log_list auth c =
      if not (valid auth && valid c.common_name)
      then pure tt
      else if case_eq auth "cert"
      then pure tt
      else if case_eq auth "system"
      then pure tt
      else if case_prefix auth "users:"
      then not_listed c.common_name "users" 6
      else if case_prefix auth "ips:"
      then not_listed c.peer_ip "ips" 4
      else if case_prefix auth "ip-only:"
      then not_listed c.peer_ip "ips" 8
      else pure tt
    where
      not_listed : String → String → ℕ → M (Unit {0})
      not_listed item what n =
          if listed_behind n item auth
          then pure tt
          else log_event log_okay "CLIENT AUTH" (
              "["
              <> item
              <> "] not in list of allowed "
              <> what
              <> ": "
              <> skip_space (drop n auth)
              <> "\n")

  unfoldable pub ssl_auth : (String → Bool) → String → Client → M Bool
  ssl_auth is_user auth c = do
    log_client auth c
    log_list auth c
    if authorized is_user auth c
        then log_event log_okay "CONNECTED" (
            c.common_name <> "@" <> c.peer_ip <> " authenticated by certificate authority "
            <> c.certificate_issuer <> ". Encryption: " <> c.cipher_details <> ".")
          >> pure true
        else log_event log_error "CONNECT FAIL"
            (c.common_name <> "@" <> c.peer_ip <> " unauthorized")
          >> pure false
