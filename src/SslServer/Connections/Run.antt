-- ===== src/SslServer/Connections/Run.antt =====
-- The table over a whole run of the server's loop (ssl_server.c).
use mathlib.Core.Path.{subst}
use vpn_mgr.Base.{
  ℕ, String, ◌≡◌, refl, ◌∙◌, sym, ap, Bool, true, false, Option, none, some, List, [], ◌∷◌, arith,
  eqb, Bool-cases, inl, inr, if◌then◌else◌,
}
use vpn_mgr.Common.{deliver}
use vpn_mgr.Process.Bind.{>>=-returns, then_pure, ret_inj, pure_ret}
use vpn_mgr.Process.{Stream, State, Res, ret, Env, close, wait_pid, get_flags}
use vpn_mgr.SslServer.Auth.{Client, ssl_auth}
use vpn_mgr.SslServer.Connections.Accept.{accept_body, accept_body-true}
use vpn_mgr.SslServer.Connections.Pairs.{
  peer_of, peer_at, Paired, kept-cases, eqb_flip, link_ends-Paired, no_peer, ssl_process-Paired,
}
use vpn_mgr.SslServer.Connections.{
  End, Table, find_end, link_ends, ssl_process, ServerEvent, new_client, readable, interrupted,
  signal_of, ssl_accept_client, serve_event, serve_loop,
}
use vpn_mgr.Vpn.{Vpn}

-- No two streams of the table are the same.
abbrev pub Unique : Table → Type 0
Unique [] = Unit
Unique (e ∷ table) = (find_end e.id table ≡ none) × Unique table

-- Where an event was served, the table has no stream twice, and `P` holds of what is left.
abbrev pub AfterEvent : Res (Vpn × Table) → State → (Vpn → Table → State → Type 0) → Type 0
AfterEvent (ret (v, table)) s P = Unique table × P v table s
AfterEvent _ s P = Unit

module _ (env : Env) (is_user : String → Bool) where
  -- Streams that are open at once are different, all through the events.
  abbrev pub Distinct : List ServerEvent → Vpn → Table → State → Type 0
  Distinct [] v table s = Unit
  Distinct (e ∷ events) v table s =
      let r = serve_event env is_user e v table (deliver (signal_of e) s).1 in
      AfterEvent r.0 r.1 (Distinct events)

peer_of-alone :
    (x : ℕ) (c : Client) (table : Table)
    → peer_of x (link_ends none c table) ≡ (if eqb c.id x then none else peer_of x table)
unfolding link_ends find_end
peer_of-alone x c table = ground arith

-- A client without pppd.
alone-Paired :
    (c : Client) (table : Table)
    → Paired table
    → find_end c.id table ≡ none
    → Paired (link_ends none c table)
alone-Paired c table paired f x y h =
    let (_, h') = kept-cases (eqb c.id x) (peer_of x table) y (sym (peer_of-alone x c table) ∙ h) in
    let back = paired x y h' in
    peer_of-alone y c table ∙ rw (no_peer y c.id x table back (ap peer_at f)) back

absent :
    (b : Bool) (e : End) (o : Option End)
    → (if b then some e else o) ≡ none
    → (b ≡ false) × (o ≡ none)
absent true e o h = absurd (cc)
absent false e o h = (refl, h)

linked-Paired :
    (pppd : Option Stream) (c : Client) (table : Table)
    → Paired table
    → Unique (link_ends pppd c table)
    → Paired (link_ends pppd c table)
unfolding link_ends find_end
linked-Paired none c table paired u = alone-Paired c table paired u.0
linked-Paired (some pppd) c table paired (p, (q, u)) =
    let (other, free) = absent (eqb c.id pppd.id) _ (find_end pppd.id table) p in
    link_ends-Paired pppd c table paired (ap peer_at free) (ap peer_at q)
      (eqb_flip c.id pppd.id other)

accept_body-Paired :
    (env : Env) (accepted : Bool) (v v' : Vpn) (table table' : Table) (c : Client) (s : State)
    → Paired table
    → Unique table'
    → (accept_body env v table c accepted s).0 ≡ ret (v', table')
    → Paired table'
accept_body-Paired env true v v' table table' c s k u h =
    let (pppd, e, _) = accept_body-true env v v' table table' c s h in
    subst Paired e (linked-Paired pppd c table k (subst Unique (sym e) u))
accept_body-Paired env false v v' table table' c s k u h =
    subst (λ (r : Vpn × Table). Paired r.1) (then_pure (close c.id) (v, table) (v', table') s h) k

module _ (env : Env) (is_user : String → Bool) where
  serve_event-Paired :
      (e : ServerEvent) (v v' : Vpn) (table table' : Table) (s : State)
      → Paired table
      → Unique table'
      → (serve_event env is_user e v table s).0 ≡ ret (v', table')
      → Paired table'
  unfolding serve_event ssl_accept_client
  serve_event-Paired (new_client c) v v' table table' s k u h =
      let (r, done, h1) =
        >>=-returns (ssl_accept_client env is_user v table c) _ s (v', table') h in
      let e = then_pure (wait_pid "-1") r (v', table') _ h1 in
      let (accepted, _, h2) = >>=-returns (ssl_auth env is_user v.server_auth c) _ s r done in
      accept_body-Paired env accepted v v' table table' c _ k u (h2 ∙ ap ret e)
  serve_event-Paired (readable id r) v v' table table' s k u h =
      let (t, done, h1) = >>=-returns (ssl_process table id r.line) _ s (v', table') h in
      let e = then_pure (wait_pid "-1") (v, t) (v', table') _ h1 in
      let (t', done', k') = ssl_process-Paired table id r.line s k in
      subst Paired (ret_inj t' t (sym done' ∙ done) ∙ ap (λ (r : Vpn × Table). r.1) e) k'
  serve_event-Paired interrupted v v' table table' s k u h =
      subst (λ (r : Vpn × Table). Paired r.1) (pure_ret (v, table) (v', table') s h) k

  -- If no table that the server's loop reaches has two ends of the same stream, and in the
  -- table it starts with every stream is the peer of its peer, then the same holds of the table
  -- with which the loop returns, whatever the events are.
  pub serve_loop-Paired :
      (events : List ServerEvent) (v v' : Vpn) (table table' : Table) (s : State)
      → Distinct env is_user events v table s
      → Paired table
      → (serve_loop env is_user events v table s).0 ≡ ret (v', table')
      → Paired table'
  unfolding serve_loop get_flags
  serve_loop-Paired [] v v' table table' s d k h =
      subst (λ (r : Vpn × Table). Paired r.1) (pure_ret (v, table) (v', table') s h) k
  serve_loop-Paired (e ∷ events) v v' table table' s d k h =
      let (f, _, h1) = >>=-returns get_flags _ s (v', table') h in
      elim (Bool-cases f.exit) [
        | inl ended ↦
            subst (λ (r : Vpn × Table). Paired r.1)
              (pure_ret (v, table) (v', table') _ (rw ended at h1)) k
        | inr more ↦
            let (_, _, h2) = >>=-returns (deliver (signal_of e)) _ _ (v', table') (rw more at h1) in
            let t = (deliver (signal_of e) s).1 in
            let r = serve_event env is_user e v table t in
            let (p, done, h3) =
              >>=-returns (serve_event env is_user e v table) _ t (v', table') h2 in
            let fresh =
              subst (λ (x : Res (Vpn × Table)). AfterEvent x r.1 (Distinct env is_user events)) done
                d in
            serve_loop-Paired events p.0 v' p.1 table' r.1 fresh.1
              (serve_event-Paired e v p.0 table p.1 t k fresh.0 done) h3
      ]
