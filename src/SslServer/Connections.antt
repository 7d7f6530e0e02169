-- ===== src/SslServer/Connections.antt =====
-- `SSLAcceptClient`, `SSLProcess`, `SSLShutdownConnection` and `SSLServer` (ssl_server.c).
pub mod Laws
pub mod Pairs
pub mod Accept
pub mod Admitted
pub mod Run
use vpn_mgr.Base.{
  ℕ, String, ◌<>◌, Bool, true, false, not, ◌&&◌, ◌||◌, Option, none, some, List, [], ◌∷◌, eqb,
  if◌then◌else◌,
}
use vpn_mgr.Base.Text.{valid}
use vpn_mgr.Common.{deliver, log_event}
use vpn_mgr.Net.{net_dev_find_next_ip}
use vpn_mgr.Ppp.{pppd_launch}
use vpn_mgr.Process.{
  Read, Stream, Url, Env, M, ◌>>=◌, ◌>>◌, pure, emit, get_flags, ask_stream, open_stream, write,
  close, wait_pid, log_plain, log_error,
}
use vpn_mgr.SslServer.Auth.{Client, ssl_auth}
use vpn_mgr.Vpn.{Vpn}

-- One end of a link: its stream, and the stream under its item "Peer", which may be NULL. The name
-- and the address are the client's, and empty at a pppd.
pub record End : Type 0 where
  pub id : ℕ
  pub peer : Option ℕ
  pub common_name : String
  pub peer_ip : String

-- `Connections`, without the listening stream, which the loop tells apart first.
abbrev pub Table : Type 0
Table = List End

unfoldable pub find_end : ℕ → Table → Option End
find_end id [] = none
find_end id (e ∷ table) = if eqb e.id id then some e else find_end id table

-- `ListDeleteItem`
unfoldable pub without_end : ℕ → Table → Table
without_end id [] = []
without_end id (e ∷ table) =
    let rest = without_end id table in if eqb e.id id then rest else e ∷ rest

-- The ends that a new client adds, pppd's first. Where pppd could not be started the client has
-- no peer; the NULL that then stands for pppd in `Connections` is no stream, and is left out.
unfoldable pub link_ends : Option Stream → Client → Table → Table
link_ends none c table =
    record { id = c.id; peer = none; common_name = c.common_name; peer_ip = c.peer_ip } ∷ table
link_ends (some pppd) c table =
    record { id = pppd.id; peer = some c.id; common_name = ""; peer_ip = "" }
    ∷ record { id = c.id; peer = some pppd.id; common_name = c.common_name; peer_ip = c.peer_ip }
    ∷ table

name_of : Option End → String
name_of none = "@"
name_of (some e) = e.common_name <> "@" <> e.peer_ip

unfoldable pub ssl_shutdown_connection : Table → ℕ → Option ℕ → M Table
unfolding name_of
ssl_shutdown_connection table con none = do
  log_event log_plain "DISCONNECT" "@ connection closed"
  emit (close con)
  pure (without_end con table)
ssl_shutdown_connection table con (some peer) = do
  log_event log_plain "DISCONNECT" (name_of (find_end peer table) <> " connection closed")
  emit (close peer)
  emit (close con)
  pure (without_end peer (without_end con table))

-- Bytes go to the peer; the end of the stream, or a peer that is missing, shuts both ends down.
unfoldable pub pass_on : Table → ℕ → Option ℕ → String → M Table
pass_on table id none bytes = ssl_shutdown_connection table id none
pass_on table id (some peer) bytes =
    if valid bytes
    then emit (write peer bytes) >> pure table
    else ssl_shutdown_connection table id (some peer)

unfoldable pub ssl_process : Table → ℕ → String → M Table
ssl_process table id bytes = elim (find_end id table) [
  | none ↦ pure table
  | some e ↦ pass_on table id e.peer bytes
]

-- What `STREAMSelect` gives: a client at the listening stream, or a stream that can be read.
pub data ServerEvent : Type 0 where
  new_client : Client → ServerEvent
  readable : ℕ → Read → ServerEvent
  interrupted : ServerEvent

abbrev pub signal_of : ServerEvent → Read
signal_of (new_client c) = record { line = ""; sigint = false }
signal_of (readable id r) = r
signal_of interrupted = record { line = ""; sigint = true }

module _ (env : Env) (is_user : String → Bool) where
  unfoldable pub ssl_accept_client : Vpn → Table → Client → M (Vpn × Table)
  ssl_accept_client v table c = do
    accepted ← ssl_auth env is_user v.server_auth c
    if accepted
        then (do
          address ← net_dev_find_next_ip env "172.16.0"
          (pppd, v') ← pppd_launch env (record v { remote_address = address })
          pure (v', link_ends pppd c table))
        else emit (close c.id) >> pure (v, table)

  unfoldable pub serve_event : ServerEvent → Vpn → Table → M (Vpn × Table)
  serve_event (new_client c) v table =
      ssl_accept_client v table c >>= (λ r. emit (wait_pid "-1") >> pure r)
  serve_event (readable id r) v table =
      ssl_process table id r.line >>= (λ t. emit (wait_pid "-1") >> pure (v, t))
  serve_event interrupted v table = pure (v, table)

  -- The loop, which tests FLAG_EXIT before each call of `STREAMSelect`.
  unfoldable pub serve_loop : List ServerEvent → Vpn → Table → M (Vpn × Table)
  serve_loop [] v table = pure (v, table)
  serve_loop (e ∷ events) v table = do
    f ← get_flags
    if f.exit then pure (v, table) else do
      deliver (signal_of e)
      (v', table') ← serve_event e v table
      serve_loop events v' table'

  -- What is missing for a server, in the order of the tests.
  unfoldable pub server_problem : Vpn → Option String
  server_problem v =
      if not (valid v.client_cert)
      then some "No TLS/SSL certificate supplied"
      else if not (valid v.client_key)
      then some "No TLS/SSL key supplied"
      else if not (valid v.verify_cert)
      then some "No TLS/SSL user verfication C.A. certificate supplied"
      else none

  unfoldable pub server_vpn : Vpn → Vpn
  server_vpn v = if valid v.local_address then v else record v { local_address = "172.16.0.1" }

  unfoldable pub ssl_server : Vpn → List ServerEvent → M (Unit {0})
  ssl_server v events = elim (server_problem v) [
    | some problem ↦ log_event log_error "ERROR" problem
    | none ↦ do
      let url = env.parse_url v.server
      ask_stream env (
          open_stream ("tls:" <> url.host <> ":" <> url.port) (
            "rw SSL:VerifyFile=" <> v.verify_cert <> " SSL:CertFile=" <> v.client_cert
            <> " SSL:KeyFile=" <> v.client_key))
      serve_loop events (server_vpn v) []
      pure tt
  ]
