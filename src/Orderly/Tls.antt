-- ===== src/Orderly/Tls.antt =====
-- PPP over TLS, both ends (ssl_client.c, ssl_server.c).
use vpn_mgr.Base.{ℕ, String, Bool, Option, none, some, List, [], ◌∷◌}
use vpn_mgr.Common.{deliver}
use vpn_mgr.Orderly.Commands.{deliver-Orderly, log_event-Orderly}
use vpn_mgr.Orderly.Devices.{pppd_launch-Orderly, pppd_process-Orderly}
use vpn_mgr.Orderly.Network.{net_dev_find_next_ip-Orderly, route_setup_vpn_server-Orderly}
use vpn_mgr.Ppp.{Ready}
use vpn_mgr.Process.Orderly.{
  Orderly, >>=-Orderly, if-Orderly, pure-Orderly, get_flags-Orderly, Option-Orderly, orderly_rules,
}
use vpn_mgr.Process.{Env, Stream, get_flags}
use vpn_mgr.SslClient.{Session, describe, run_tls, ppp_ssl_client_vpn_up}
use vpn_mgr.SslServer.Auth.{Client, log_client, log_list, ssl_auth}
use vpn_mgr.SslServer.Connections.{
  Table, find_end, ssl_shutdown_connection, pass_on, ssl_process, ssl_accept_client, ServerEvent,
  new_client, readable, interrupted, signal_of, serve_event, serve_loop, server_problem, ssl_server,
}
use vpn_mgr.Vpn.{Vpn}

describe-Orderly : (t : Session) → Orderly (describe t)
unfolding describe
describe-Orderly t = search orderly_rules depth 14

ssl_shutdown_connection-Orderly :
    (table : Table) (con : ℕ) (peer : Option ℕ) → Orderly (ssl_shutdown_connection table con peer)
unfolding ssl_shutdown_connection
ssl_shutdown_connection-Orderly table con none = search (orderly_rules, log_event-Orderly) depth 14
ssl_shutdown_connection-Orderly table con (some peer) =
    search (orderly_rules, log_event-Orderly) depth 14

pass_on-Orderly :
    (table : Table) (id : ℕ) (peer : Option ℕ) (bytes : String)
    → Orderly (pass_on table id peer bytes)
unfolding pass_on
pass_on-Orderly table id none bytes = ssl_shutdown_connection-Orderly table id none
pass_on-Orderly table id (some peer) bytes =
    search (orderly_rules, ssl_shutdown_connection-Orderly) depth 12

ssl_process-Orderly :
    (table : Table) (id : ℕ) (bytes : String) → Orderly (ssl_process table id bytes)
unfolding ssl_process
ssl_process-Orderly table id bytes =
    Option-Orderly (find_end id table) _ _ (pure-Orderly table)
      (λ e. pass_on-Orderly table id e.peer bytes)

module _ (env : Env) (session : Stream → Session) where
  run_tls-Orderly :
      (v : Vpn) (events : List Ready) (url : String) (s : Option Stream)
      → Orderly (run_tls env session v events url s)
  unfolding run_tls
  run_tls-Orderly v events url none = search orderly_rules
  run_tls-Orderly v events url (some s) =
      search (orderly_rules, describe-Orderly, pppd_process-Orderly) depth 14

  pub ppp_ssl_client_vpn_up-Orderly :
      (v : Vpn) (events : List Ready) → Orderly (ppp_ssl_client_vpn_up env session v events)
  unfolding ppp_ssl_client_vpn_up
  ppp_ssl_client_vpn_up-Orderly v events =
      search (orderly_rules, route_setup_vpn_server-Orderly, run_tls-Orderly) depth 14

module _ (env : Env) (is_user : String → Bool) where
  log_client-Orderly : (auth : String) (c : Client) → Orderly (log_client env auth c)
  unfolding log_client
  log_client-Orderly auth c = search (orderly_rules, log_event-Orderly) depth 14

  log_list-Orderly : (auth : String) (c : Client) → Orderly (log_list env auth c)
  unfolding log_list
  log_list-Orderly auth c = search (orderly_rules, log_event-Orderly) depth 20

  ssl_auth-Orderly : (auth : String) (c : Client) → Orderly (ssl_auth env is_user auth c)
  unfolding ssl_auth
  ssl_auth-Orderly auth c =
      search (orderly_rules, log_client-Orderly, log_list-Orderly, log_event-Orderly) depth 16

  ssl_accept_client-Orderly :
      (v : Vpn) (table : Table) (c : Client) → Orderly (ssl_accept_client env is_user v table c)
  unfolding ssl_accept_client
  ssl_accept_client-Orderly v table c =
      search (orderly_rules, ssl_auth-Orderly, net_dev_find_next_ip-Orderly, pppd_launch-Orderly)
        depth 18

  serve_event-Orderly :
      (e : ServerEvent) (v : Vpn) (table : Table) → Orderly (serve_event env is_user e v table)
  unfolding serve_event
  serve_event-Orderly (new_client c) v table =
      search (orderly_rules, ssl_accept_client-Orderly) depth 14
  serve_event-Orderly (readable id r) v table = search (orderly_rules, ssl_process-Orderly) depth 14
  serve_event-Orderly interrupted v table = pure-Orderly (v, table)

  serve_loop-Orderly :
      (events : List ServerEvent) (v : Vpn) (table : Table)
      → Orderly (serve_loop env is_user events v table)
  unfolding serve_loop
  serve_loop-Orderly [] v table = pure-Orderly (v, table)
  serve_loop-Orderly (e ∷ events) v table = >>=-Orderly get_flags _ get_flags-Orderly λ f.
      if-Orderly f.exit _ _ (pure-Orderly (v, table)) (
        >>=-Orderly (deliver (signal_of e)) _ (deliver-Orderly (signal_of e)) λ _.
          >>=-Orderly (serve_event env is_user e v table) _ (serve_event-Orderly e v table)
            (λ r. serve_loop-Orderly events r.0 r.1))

  pub ssl_server-Orderly :
      (v : Vpn) (events : List ServerEvent) → Orderly (ssl_server env is_user v events)
  unfolding ssl_server
  ssl_server-Orderly v events =
      Option-Orderly (server_problem env is_user v) _ _
        (search (orderly_rules, serve_loop-Orderly) depth 14) (λ problem. log_event-Orderly _ _ _)
