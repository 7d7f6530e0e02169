-- ===== src/SslServer/Connections/Pairs.antt =====
-- The ends of the server's table as pairs (ssl_server.c).
use vpn_mgr.Base.{
  ℕ, String, ◌≡◌, refl, ◌∙◌, sym, ap, Bool, true, false, Option, none, some, arith, eqb, Bool-cases,
  Option-cases, inl, inr, if◌then◌else◌,
}
use vpn_mgr.Base.Text.{valid}
use vpn_mgr.Common.{log_event}
use vpn_mgr.Process.{Stream, State, Res, ◌>>=◌, ret}
use vpn_mgr.SslServer.Auth.{Client}
use vpn_mgr.SslServer.Connections.Laws.{find_end-without_end}
use vpn_mgr.SslServer.Connections.{
  End, Table, find_end, without_end, link_ends, ssl_shutdown_connection, pass_on, ssl_process,
}

abbrev pub peer_at : Option End → Option ℕ
peer_at none = none
peer_at (some e) = e.peer

-- The stream under the item "Peer" of a stream of the table.
abbrev pub peer_of : ℕ → Table → Option ℕ
peer_of id table = peer_at (find_end id table)

-- A stream is the peer of its peer.
abbrev pub Paired : Table → Type 0
Paired table = (x y : ℕ) → peer_of x table ≡ some y → peer_of y table ≡ some x

eqb_sound : (a b : ℕ) → eqb a b ≡ true → a ≡ b
eqb_sound a b h = ground arith

some_inj : (a b : ℕ) → some a ≡ some b → a ≡ b
some_inj a b h = cc

peer_of-without_end :
    (x id : ℕ) (table : Table)
    → peer_of x (without_end id table) ≡ (if eqb x id then none else peer_of x table)
peer_of-without_end x id table = ap peer_at (find_end-without_end x id table) ∙ ground arith

pub kept-cases :
    (b : Bool) (o : Option ℕ) (y : ℕ)
    → (if b then none else o) ≡ some y
    → (b ≡ false) × (o ≡ some y)
kept-cases true o y h = absurd cc
kept-cases false o y h = (refl, h)

peer_of-kept :
    (x id y : ℕ) (table : Table)
    → peer_of x (without_end id table) ≡ some y
    → (eqb x id ≡ false) × (peer_of x table ≡ some y)
peer_of-kept x id y table h =
    kept-cases (eqb x id) (peer_of x table) y (sym (peer_of-without_end x id table) ∙ h)

peer_of-stays :
    (x id : ℕ) (table : Table)
    → eqb x id ≡ false
    → peer_of x (without_end id table) ≡ peer_of x table
peer_of-stays x id table h = peer_of-without_end x id table ∙ rw h refl

eqb_refl : (a b : ℕ) → a ≡ b → eqb a b ≡ true
eqb_refl a b h = ground arith

-- Two streams with different peers are different.
apart :
    (y k x z : ℕ) (table : Table)
    → peer_of y table ≡ some x
    → peer_of k table ≡ some z
    → eqb x z ≡ false
    → eqb y k ≡ false
apart y k x z table h j n = elim (Bool-cases (eqb y k)) [
  | inl same ↦
      let e = some_inj x z (sym h ∙ ap (λ i. peer_of i table) (eqb_sound y k same) ∙ j) in
      absurd (cc (eqb_refl x z e, n))
  | inr other ↦ other
]

without_both-Paired :
    (con peer : ℕ) (table : Table)
    → Paired table
    → peer_of con table ≡ some peer
    → Paired (without_end peer (without_end con table))
without_both-Paired con peer table paired linked x y h =
    let (n, h') = peer_of-kept x peer y (without_end con table) h in
    let (m, h'') = peer_of-kept x con y table h' in
    let back = paired x y h'' in
    peer_of-stays y peer (without_end con table)
      (apart y peer x con table back (paired con peer linked) m)
    ∙ peer_of-stays y con table (apart y con x peer table back linked n)
    ∙ back

pub eqb_flip : (a b : ℕ) → eqb a b ≡ false → eqb b a ≡ false
eqb_flip a b h = ground arith

-- A stream with a peer is not one without.
pub no_peer :
    (y k x : ℕ) (table : Table)
    → peer_of y table ≡ some x
    → peer_of k table ≡ none
    → eqb k y ≡ false
no_peer y k x table h j = elim (Bool-cases (eqb k y)) [
  | inl same ↦ absurd (cc (sym j ∙ ap (λ i. peer_of i table) (eqb_sound k y same) ∙ h))
  | inr other ↦ other
]

without_one-Paired :
    (con : ℕ) (table : Table)
    → Paired table
    → peer_of con table ≡ none
    → Paired (without_end con table)
without_one-Paired con table paired single x y h =
    let (n, h') = peer_of-kept x con y table h in
    let back = paired x y h' in
    peer_of-stays y con table (eqb_flip con y (no_peer y con x table back single)) ∙ back

-- The table that an action leaves, where it returns one with paired ends.
abbrev pub LeavesPaired : Res Table → Type 0
LeavesPaired r = (table : Table) × (r ≡ ret table) × Paired table

pass_on-Paired :
    (table : Table) (id : ℕ) (peer : Option ℕ) (bytes : String) (s : State)
    → Paired table
    → peer_of id table ≡ peer
    → LeavesPaired (pass_on table id peer bytes s).0
unfolding pass_on ssl_shutdown_connection log_event ◌>>=◌
pass_on-Paired table id none bytes s paired e = (_, refl, without_one-Paired id table paired e)
pass_on-Paired table id (some peer) bytes s paired e = elim (Bool-cases (valid bytes)) [
  | inl full ↦ rw full (table, refl, paired)
  | inr ended ↦ rw ended (_, refl, without_both-Paired id peer table paired e)
]

-- On a table in which every stream is the peer of its peer, `SSLProcess` returns, for any stream
-- and any bytes, with a table of which the same holds.
pub ssl_process-Paired :
    (table : Table) (id : ℕ) (bytes : String) (s : State)
    → Paired table
    → LeavesPaired (ssl_process table id bytes s).0
unfolding ssl_process ◌>>=◌
ssl_process-Paired table id bytes s paired = elim (Option-cases (find_end id table)) [
  | inl missing ↦ rw (missing, ssl_process) (table, refl, paired)
  | inr (e, found) ↦
      rw (found, ssl_process) (pass_on-Paired table id e.peer bytes s paired (ap peer_at found))
]

peer_of-link_ends :
    (x : ℕ) (pppd : Stream) (c : Client) (table : Table)
    → peer_of x (link_ends (some pppd) c table)
      ≡ (if eqb pppd.id x then some c.id else if eqb c.id x then some pppd.id else peer_of x table)
unfolding link_ends find_end
peer_of-link_ends x pppd c table = ground arith

linked_first :
    (p c x y : ℕ) (o : Option ℕ)
    → eqb p c ≡ false
    → eqb p x ≡ true
    → some c ≡ some y
    → (if eqb p y then some c else if eqb c y then some p else o) ≡ some x
linked_first p c x y o n h e =
    rw (sym (some_inj c y e)) (rw n (rw (eqb_refl c c refl) (ap some (eqb_sound p x h))))

linked_second :
    (p c x y : ℕ) (o : Option ℕ)
    → eqb c x ≡ true
    → some p ≡ some y
    → (if eqb p y then some c else if eqb c y then some p else o) ≡ some x
linked_second p c x y o h e =
    rw (sym (some_inj p y e)) (rw (eqb_refl p p refl) (ap some (eqb_sound c x h)))

-- Where every stream of the table is the peer of its peer, the same holds once a client and its
-- pppd were linked, which are two streams and had no peers in the table before.
pub link_ends-Paired :
    (pppd : Stream) (c : Client) (table : Table)
    → Paired table
    → peer_of pppd.id table ≡ none
    → peer_of c.id table ≡ none
    → eqb pppd.id c.id ≡ false
    → Paired (link_ends (some pppd) c table)
link_ends-Paired pppd c table paired p q n x y h =
    peer_of-link_ends y pppd c table ∙ back (sym (peer_of-link_ends x pppd c table) ∙ h)
  where
    third :
        peer_of x table ≡ some y
        → (if eqb pppd.id y
            then some c.id
            else if eqb c.id y
            then some pppd.id
            else peer_of y table)
          ≡ some x
    third e =
        let b = paired x y e in
        rw (no_peer y pppd.id x table b p) (rw (no_peer y c.id x table b q) b)

    second :
        eqb pppd.id x ≡ false
        → (if eqb c.id x then some pppd.id else peer_of x table) ≡ some y
        → (if eqb pppd.id y
            then some c.id
            else if eqb c.id y
            then some pppd.id
            else peer_of y table)
          ≡ some x
    second m e = elim (Bool-cases (eqb c.id x)) [
      | inl mine ↦ linked_second pppd.id c.id x y (peer_of y table) mine (rw mine at e)
      | inr other ↦ third (rw other at e)
    ]

    back :
        (if eqb pppd.id x then some c.id else if eqb c.id x then some pppd.id else peer_of x table)
          ≡ some y
        → (if eqb pppd.id y
            then some c.id
            else if eqb c.id y
            then some pppd.id
            else peer_of y table)
          ≡ some x
    back e = elim (Bool-cases (eqb pppd.id x)) [
      | inl first ↦ linked_first pppd.id c.id x y (peer_of y table) n first (rw first at e)
      | inr other ↦ second other (rw other at e)
    ]
