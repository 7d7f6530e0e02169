-- ===== src/SslServer/Connections/Laws.antt =====
-- What the server's table of connections holds after each step (ssl_server.c).
use vpn_mgr.Base.{
  ℕ, String, ◌≡◌, refl, ◌∙◌, true, false, ◌||◌, none, some, List, [], ◌∷◌, arith, eqb,
  if◌then◌else◌,
}
use vpn_mgr.Base.Text.{valid}
use vpn_mgr.Common.{log_event}
use vpn_mgr.Process.{Event, write, close, Stream, State, ◌>>=◌, ret}
use vpn_mgr.SslServer.Auth.{Client}
use vpn_mgr.SslServer.Connections.{
  End, Table, find_end, without_end, link_ends, ssl_shutdown_connection, pass_on, ssl_process,
}

pub find_end-without_end :
    (x id : ℕ) (table : Table)
    → find_end x (without_end id table) ≡ (if eqb x id then none else find_end x table)
unfolding find_end without_end
find_end-without_end x id [] = ground arith
find_end-without_end x id (e ∷ table) = ground (arith, find_end-without_end x id table)

-- A table from which both ends of a link are gone, and nothing else.
abbrev pub Unlinked : ℕ → ℕ → Table → Table → Type 0
Unlinked con peer table table' =
    (x : ℕ) → find_end x table' ≡ (if eqb x con || eqb x peer then none else find_end x table)

unlinked :
    (con peer : ℕ) (table : Table)
    → Unlinked con peer table (without_end peer (without_end con table))
unlinked con peer table x =
    find_end-without_end x peer (without_end con table)
    ∙ ground (arith, find_end-without_end x con table)

-- When a stream of the server's table that has a peer gives no more bytes, `SSLProcess` returns
-- with both streams closed, first the peer's, as the last things it did, and with a table that
-- lacks both ends and has every other end as before.
pub ssl_process-closed :
    (table : Table) (id peer : ℕ) (e : End) (s : State)
    → find_end id table ≡ some e
    → e.peer ≡ some peer
    → (table' : Table) × (earlier : List Event) × ((ssl_process table id "" s).0 ≡ ret table')
      × ((ssl_process table id "" s).1.trace ≡ close id ∷ close peer ∷ earlier)
      × Unlinked id peer table table'
unfolding ssl_process pass_on ssl_shutdown_connection log_event ◌>>=◌
ssl_process-closed table id peer e s found linked =
    rw (found, ssl_process)
      (rw (linked, pass_on)
        (without_end peer (without_end id table), _, refl, refl, unlinked id peer table))

-- Where a client and its pppd are two streams that were linked, `SSLProcess` writes bytes from
-- the client to pppd and bytes from pppd to the client, does nothing else, and leaves the table
-- as it is.
pub ssl_process-link_ends :
    (pppd : Stream) (c : Client) (table : Table) (bytes : String) (s : State)
    → valid bytes ≡ true
    → eqb pppd.id c.id ≡ false
    → let linked = link_ends (some pppd) c table in
      (ssl_process linked c.id bytes s
        ≡ (ret linked, record s { trace = write pppd.id bytes ∷ s.trace }))
      × (ssl_process linked pppd.id bytes s
          ≡ (ret linked, record s { trace = write c.id bytes ∷ s.trace }))
unfolding ssl_process pass_on link_ends find_end ◌>>=◌
ssl_process-link_ends pppd c table bytes s v apart = (ground arith, ground arith)
