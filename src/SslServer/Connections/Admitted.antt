-- ===== src/SslServer/Connections/Admitted.antt =====
-- Whose ends the server's table holds (ssl_server.c).
use mathlib.Core.Path.{subst}
use vpn_mgr.Base.{
  ℕ, String, ◌≡◌, refl, ◌∙◌, sym, ap, Bool, true, false, Option, none, some, List, [], ◌∷◌, ◌⊎◌,
  eqb, All, Bool-cases, Option-cases, inl, inr,
}
use vpn_mgr.Base.Text.{valid}
use vpn_mgr.Common.{deliver, log_event}
use vpn_mgr.Process.Bind.{>>=-returns, then_pure, ret_inj, pure_ret}
use vpn_mgr.Process.{Stream, State, Res, Env, ◌>>=◌, ret, get_flags, wait_pid, close}
use vpn_mgr.SslServer.Auth.{Client, authorized, ssl_auth}
use vpn_mgr.SslServer.Connections.{
  End, Table, find_end, without_end, link_ends, ssl_shutdown_connection, pass_on, ssl_process,
  ServerEvent, new_client, readable, interrupted, signal_of, ssl_accept_client, serve_event,
  serve_loop,
}
use vpn_mgr.Vpn.{Vpn}
use vpn_mgr.SslServer.Connections.Accept.{ssl_auth-authorized, accept_body, accept_body-true}

-- The client is one of those who connect in the course of the events.
abbrev pub Came : Client → List ServerEvent → Type 0
Came c [] = ⊥
Came c (new_client d ∷ events) = (c ≡ d) ⊎ Came c events
Came c (readable id r ∷ events) = Came c events
Came c (interrupted ∷ events) = Came c events

module _ (env : Env) (is_user : String → Bool) (auth : String) (Source : Client → Type 0) where
  -- An end of the link of a client of the source that is authorized.
  abbrev pub Admitted : End → Type 0
  Admitted e =
      (c : Client) × Source c
      × (authorized env is_user auth c ≡ true)
      × ((e.id ≡ c.id) ⊎ (e.peer ≡ some c.id))

  without_end-Admitted :
      (id : ℕ) (table : Table) → All Admitted table → All Admitted (without_end id table)
  unfolding without_end
  without_end-Admitted id [] h = tt
  without_end-Admitted id (e ∷ table) (h, more) = elim (Bool-cases (eqb e.id id)) [
    | inl same ↦ rw same (without_end-Admitted id table more)
    | inr other ↦ rw other (h, without_end-Admitted id table more)
  ]

  link_ends-Admitted :
      (pppd : Option Stream) (c : Client) (table : Table)
      → Source c
      → authorized env is_user auth c ≡ true
      → All Admitted table
      → All Admitted (link_ends pppd c table)
  unfolding link_ends
  link_ends-Admitted none c table o a h = ((c, o, a, inl refl), h)
  link_ends-Admitted (some pppd) c table o a h = ((c, o, a, inr refl), ((c, o, a, inl refl), h))

  -- The table that an action leaves, where it returns one.
  abbrev Leaves : Res Table → Type 0
  Leaves r = (table : Table) × (r ≡ ret table) × All Admitted table

  pass_on-Admitted :
      (table : Table) (id : ℕ) (peer : Option ℕ) (bytes : String) (s : State)
      → All Admitted table
      → Leaves (pass_on table id peer bytes s).0
  unfolding pass_on ssl_shutdown_connection log_event ◌>>=◌
  pass_on-Admitted table id none bytes s h = (_, refl, without_end-Admitted id table h)
  pass_on-Admitted table id (some peer) bytes s h = elim (Bool-cases (valid bytes)) [
    | inl full ↦ rw full (table, refl, h)
    | inr ended ↦ rw ended (
      _,
      refl,
      without_end-Admitted peer (without_end id table) (without_end-Admitted id table h),
    )
  ]

  ssl_process-Admitted :
      (table : Table) (id : ℕ) (bytes : String) (s : State)
      → All Admitted table
      → Leaves (ssl_process table id bytes s).0
  unfolding ssl_process ◌>>=◌
  ssl_process-Admitted table id bytes s h = elim (Option-cases (find_end id table)) [
    | inl missing ↦ rw (missing, ssl_process) (table, refl, h)
    | inr (e, found) ↦ rw (found, ssl_process) (pass_on-Admitted table id e.peer bytes s h)
  ]

module _ (env : Env) (is_user : String → Bool) (auth : String) (Source : Client → Type 0) where
  -- The context still has the list, and the table only ends of clients who are on it.
  abbrev Kept : Vpn → Table → Type 0
  Kept v table = (v.server_auth ≡ auth) × All (Admitted env is_user auth Source) table

  accept_body-Kept :
      (accepted : Bool) (v v' : Vpn) (table table' : Table) (c : Client) (s : State)
      → Source c
      → (accepted ≡ true → authorized env is_user auth c ≡ true)
      → Kept v table
      → (accept_body env v table c accepted s).0 ≡ ret (v', table')
      → Kept v' table'
  accept_body-Kept true v v' table table' c s o a (l, k) h =
      let (pppd, e, same) = accept_body-true env v v' table table' c s h in
      (
        same ∙ l,
        subst (All (Admitted env is_user auth Source)) e
            (link_ends-Admitted env is_user auth Source pppd c table o (a refl) k),
      )
  accept_body-Kept false v v' table table' c s o a k h =
      let e = then_pure (close c.id) (v, table) (v', table') s h in
      subst (λ (r : Vpn × Table). Kept r.0 r.1) e k

  ssl_accept_client-Kept :
      (v v' : Vpn) (table table' : Table) (c : Client) (s : State)
      → Source c
      → Kept v table
      → (ssl_accept_client env is_user v table c s).0 ≡ ret (v', table')
      → Kept v' table'
  unfolding ssl_accept_client
  ssl_accept_client-Kept v v' table table' c s o k h =
      let (accepted, okay, h1) =
        >>=-returns (ssl_auth env is_user v.server_auth c) _ s (v', table') h in
      accept_body-Kept accepted v v' table table' c _ o
        (λ e.
          subst (λ a. authorized env is_user a c ≡ true) k.0
            (ssl_auth-authorized env is_user v.server_auth c s (okay ∙ ap ret e)))
        k h1

  abbrev Comes : ServerEvent → Type 0
  Comes (new_client c) = Source c
  Comes (readable id r) = Unit
  Comes interrupted = Unit

  serve_event-Kept :
      (e : ServerEvent) (v v' : Vpn) (table table' : Table) (s : State)
      → Comes e
      → Kept v table
      → (serve_event env is_user e v table s).0 ≡ ret (v', table')
      → Kept v' table'
  unfolding serve_event
  serve_event-Kept (new_client c) v v' table table' s o k h =
      let (r, done, h1) =
        >>=-returns (ssl_accept_client env is_user v table c) _ s (v', table') h in
      let e = then_pure (wait_pid "-1") r (v', table') _ h1 in
      subst (λ (r : Vpn × Table). Kept r.0 r.1) e
        (ssl_accept_client-Kept v r.0 table r.1 c s o k done)
  serve_event-Kept (readable id r) v v' table table' s o k h =
      let (t, done, h1) = >>=-returns (ssl_process table id r.line) _ s (v', table') h in
      let e = then_pure (wait_pid "-1") (v, t) (v', table') _ h1 in
      let (t', done', k') = ssl_process-Admitted env is_user auth Source table id r.line s k.1 in
      subst (λ (r : Vpn × Table). Kept r.0 r.1) e
        (k.0, subst (All (Admitted env is_user auth Source)) (ret_inj t' t (sym done' ∙ done)) k')
  serve_event-Kept interrupted v v' table table' s o k h =
      subst (λ (r : Vpn × Table). Kept r.0 r.1) (pure_ret (v, table) (v', table') s h) k

  serve_loop-Kept :
      (events : List ServerEvent) (v v' : Vpn) (table table' : Table) (s : State)
      → All Comes events
      → Kept v table
      → (serve_loop env is_user events v table s).0 ≡ ret (v', table')
      → Kept v' table'
  unfolding serve_loop
  serve_loop-Kept [] v v' table table' s o k h =
      subst (λ (r : Vpn × Table). Kept r.0 r.1) (pure_ret (v, table) (v', table') s h) k
  serve_loop-Kept (e ∷ events) v v' table table' s o k h =
      let (f, _, h1) = >>=-returns get_flags _ s (v', table') h in
      elim (Bool-cases f.exit) [
        | inl stop' ↦
            subst (λ (r : Vpn × Table). Kept r.0 r.1)
              (pure_ret (v, table) (v', table') _ (rw stop' at h1)) k
        | inr more ↦
            let (_, _, h2) = >>=-returns (deliver (signal_of e)) _ _ (v', table') (rw more at h1) in
            let (p, done, h3) =
              >>=-returns (serve_event env is_user e v table) _ _ (v', table') h2 in
            serve_loop-Kept events p.0 v' p.1 table' _ o.1
              (serve_event-Kept e v p.0 table p.1 _ o.0 k done) h3
      ]

events_come :
    (env : Env) (is_user : String → Bool) (auth : String) (Source : Client → Type 0)
    (events : List ServerEvent)
    → ((c : Client) → Came c events → Source c)
    → All (Comes env is_user auth Source) events
events_come env is_user auth Source [] h = tt
events_come env is_user auth Source (new_client c ∷ events) h =
    (h c (inl refl), events_come env is_user auth Source events (λ d m. h d (inr m)))
events_come env is_user auth Source (readable id r ∷ events) h =
    (tt, events_come env is_user auth Source events h)
events_come env is_user auth Source (interrupted ∷ events) h =
    (tt, events_come env is_user auth Source events h)

-- Where the server's loop, started with no connections, returns after any run of events, every
-- end in its table belongs to the link of a client who connected in one of these events and is
-- authorized by the `ServerAuth` that the server was started with: it is the client's own end, or
-- its peer is.
pub serve_loop-Admitted :
    (env : Env) (is_user : String → Bool) (events : List ServerEvent) (v v' : Vpn) (table : Table)
    (s : State)
    → (serve_loop env is_user events v [] s).0 ≡ ret (v', table)
    → All (Admitted env is_user v.server_auth (λ c. Came c events)) table
serve_loop-Admitted env is_user events v v' table s h =
    let Source = λ (c : Client). Came c events in
    (serve_loop-Kept env is_user v.server_auth Source events v v' [] table s
      (events_come env is_user v.server_auth Source events (λ c m. m)) (refl, tt) h).1
