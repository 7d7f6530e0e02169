-- ===== src/SslServer/Connections/Accept.antt =====
-- How a client is let in by `SSLAcceptClient` (ssl_server.c).
use vpn_mgr.Base.{String, ◌≡◌, refl, ◌∙◌, sym, ap, Bool, true, false, Option, arith, if◌then◌else◌}
use vpn_mgr.Common.{log_event}
use vpn_mgr.Net.{net_dev_find_next_ip}
use vpn_mgr.Ppp.{with_local_address, pppd_command, pppd_flags, pppd_launch}
use vpn_mgr.Process.Bind.{>>=-returns, pure_ret}
use vpn_mgr.Process.{Stream, State, Env, M, ◌>>=◌, ◌>>◌, LogLevel, ret, pure, emit, close}
use vpn_mgr.RunCommand.Launch.{run_command_open}
use vpn_mgr.SslServer.Auth.{Client, authorized, ssl_auth, log_client, log_list}
use vpn_mgr.SslServer.Connections.{Table, link_ends}
use vpn_mgr.Vpn.{Vpn}

auth_result :
    (b : Bool) (l k : LogLevel) (t u x y : String) (s : State)
    → ((if b then log_event l t x >> pure true else log_event k u y >> pure false) s).0 ≡ ret true
    → b ≡ true
unfolding log_event ◌>>=◌
auth_result true l k t u x y s h = refl
auth_result false l k t u x y s h = absurd (cc)

-- `SSLAuth` lets in only whom the flags authorize.
pub ssl_auth-authorized :
    (env : Env) (is_user : String → Bool) (auth : String) (c : Client) (s : State)
    → (ssl_auth env is_user auth c s).0 ≡ ret true
    → authorized env is_user auth c ≡ true
unfolding ssl_auth
ssl_auth-authorized env is_user auth c s h =
    let (_, _, h') = >>=-returns (log_client env auth c) _ s true h in
    let (_, _, h'') = >>=-returns (log_list env auth c) _ _ true h' in
    auth_result (authorized env is_user auth c) _ _ _ _ _ _ _ h''

server_auth-with_local_address : (v : Vpn) → (with_local_address v).server_auth ≡ v.server_auth
unfolding with_local_address
server_auth-with_local_address v = ground arith

-- Starting pppd leaves the list of those who may connect alone.
server_auth-pppd_launch :
    (env : Env) (v v' : Vpn) (o : Option Stream) (s : State)
    → (pppd_launch env v s).0 ≡ ret (o, v')
    → v'.server_auth ≡ v.server_auth
unfolding pppd_launch
server_auth-pppd_launch env v v' o s h =
    let (_, _, h1) = >>=-returns (log_event _ _ _) _ s (o, v') h in
    let (p, _, h2) =
      >>=-returns (run_command_open env (pppd_command v) pppd_flags) _ _ (o, v') h1 in
    let (_, _, h3) = >>=-returns _ _ _ (o, v') h2 in
    ap (λ (r : Option Stream × Vpn). r.1.server_auth)
      (sym (pure_ret (p, with_local_address v) (o, v') _ h3))
    ∙ server_auth-with_local_address v

-- What `SSLAcceptClient` does behind the decision of `SSLAuth`.
abbrev pub accept_body : Env → Vpn → Table → Client → Bool → M (Vpn × Table)
accept_body env v table c accepted =
    if accepted
    then (do
      address ← net_dev_find_next_ip env "172.16.0"
      (pppd, v') ← pppd_launch env (record v { remote_address = address })
      pure (v', link_ends pppd c table))
    else emit (close c.id) >> pure (v, table)

-- A client is let in: what it is linked to, and the context behind it.
pub accept_body-true :
    (env : Env) (v v' : Vpn) (table table' : Table) (c : Client) (s : State)
    → (accept_body env v table c true s).0 ≡ ret (v', table')
    → (pppd : Option Stream) × (link_ends pppd c table ≡ table') × (v'.server_auth ≡ v.server_auth)
accept_body-true env v v' table table' c s h =
    let (address, _, h1) = >>=-returns (net_dev_find_next_ip env "172.16.0") _ s (v', table') h in
    let v0 = record v { remote_address = address } in
    let (p, launched, h2) = >>=-returns (pppd_launch env v0) _ _ (v', table') h1 in
    let e = pure_ret (p.1, link_ends p.0 c table) (v', table') _ h2 in
    (
      p.0,
      ap (λ (r : Vpn × Table). r.1) e,
      ap (λ (r : Vpn × Table). r.0.server_auth) (sym e)
          ∙ server_auth-pppd_launch env v0 p.1 p.0 _ launched,
    )
