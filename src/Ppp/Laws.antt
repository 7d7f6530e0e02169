-- ===== src/Ppp/Laws.antt =====
-- What the loop of `PPPDProcess` passes on, and how it ends (ppp.c).
use vpn_mgr.Base.{
  ℕ, String, ◌<>◌, ◌≡◌, refl, ◌∙◌, sym, Bool, true, false, none, List, [], ◌∷◌, arith, eqb,
}
use vpn_mgr.Base.Text.{valid, concat, append_assoc, append-nil}
use vpn_mgr.Common.{deliver, signal_handler, set_exit, ssh_vpn_terminate}
use vpn_mgr.Process.{print, Event, Stream, Env, State, ◌>>=◌, ret, write, sigint}
use vpn_mgr.Ppp.{
  Ready, from_pppd, from_peer, time_out, as_read, running, by_exit, forward, turn, pppd_loop,
  say_read,
}
use vpn_mgr.Vpn.{Vpn}
use vpn_mgr.VpnConfig.Written.{file_text}

-- Bytes were read, or the time was up, and no signal came.
abbrev pub Quiet : Ready → Type 0
Quiet (from_pppd r) = (valid r.line ≡ true) × (r.sigint ≡ false)
Quiet (from_peer r) = (valid r.line ≡ true) × (r.sigint ≡ false)
Quiet (time_out came) = came ≡ false

abbrev pub AllQuiet : List Ready → Type 0
AllQuiet [] = Unit
AllQuiet (e ∷ events) = Quiet e × AllQuiet events

-- The bytes that pppd gave, and those that the peer gave.
abbrev pub pppd_bytes : List Ready → List String
pppd_bytes [] = []
pppd_bytes (from_pppd r ∷ events) = r.line ∷ pppd_bytes events
pppd_bytes (_ ∷ events) = pppd_bytes events

abbrev pub peer_bytes : List Ready → List String
peer_bytes [] = []
peer_bytes (from_peer r ∷ events) = r.line ∷ peer_bytes events
peer_bytes (_ ∷ events) = peer_bytes events

-- The trace with what FLAG_DEBUG makes the program say of the bytes.
abbrev said : Bool → String → String → List Event → List Event
said true side text t = print ("PPPD: read from " <> side <> ": " <> text <> "\n") ∷ t
said false side text t = t

say_read_lem :
    (side text : String) (s : State)
    → say_read side text s ≡ (ret tt, record s { trace = said s.flags.debug side text s.trace })
unfolding say_read ◌>>=◌
say_read_lem side text s = go s.flags.debug refl
  where
    go :
        (b : Bool)
        → s.flags.debug ≡ b
        → say_read side text s ≡ (ret tt, record s { trace = said b side text s.trace })
    go true e = simp e
    go false e = simp e

file_text-said :
    (id : ℕ) (b : Bool) (side text : String) (t : List Event)
    → file_text id (said b side text t) ≡ file_text id t
unfolding file_text
file_text-said id true side text t = refl
file_text-said id false side text t = refl

module _ (env : Env) (v : Vpn) (pppd peer : Stream) where
  -- The state once the bytes of one side were passed on.
  abbrev passed : String → ℕ → String → State → State
  passed side id text s = record s { trace = write id text ∷ said s.flags.debug side text s.trace }

  -- The state behind the loop.
  abbrev forwarded : List Ready → State → State
  forwarded [] s = s
  forwarded (from_pppd r ∷ events) s = forwarded events (passed "local" peer.id r.line s)
  forwarded (from_peer r ∷ events) s = forwarded events (passed "remote" pppd.id r.line s)
  forwarded (time_out b ∷ events) s = forwarded events s

  pppd_loop-forwarded :
      (events : List Ready) (s : State)
      → AllQuiet events
      → s.flags.exit ≡ false
      → pppd_loop env v pppd peer events true s ≡ (ret running, forwarded events s)
  unfolding pppd_loop forward turn deliver ◌>>=◌
  pppd_loop-forwarded [] s q x = refl
  pppd_loop-forwarded (from_pppd r ∷ events) s ((full, quiet), q) x =
      simp (quiet, x, full, say_read_lem)
        (pppd_loop-forwarded events (passed "local" peer.id r.line s) q x)
  pppd_loop-forwarded (from_peer r ∷ events) s ((full, quiet), q) x =
      simp (quiet, x, full, say_read_lem)
        (pppd_loop-forwarded events (passed "remote" pppd.id r.line s) q x)
  pppd_loop-forwarded (time_out b ∷ events) s (quiet, q) x =
      simp (quiet, x) (pppd_loop-forwarded events s q x)

  peer_text :
      (events : List Ready) (s : State)
      → eqb pppd.id peer.id ≡ false
      → file_text peer.id (forwarded events s).trace
        ≡ file_text peer.id s.trace <> concat (pppd_bytes events)
  unfolding file_text concat
  peer_text [] s apart = sym (append-nil _)
  peer_text (from_pppd r ∷ events) s apart =
      peer_text events _ apart
      ∙ ground (arith, append_assoc (file_text peer.id s.trace) r.line (concat (pppd_bytes events)))
  peer_text (from_peer r ∷ events) s apart = peer_text events _ apart ∙ ground arith
  peer_text (time_out b ∷ events) s apart = peer_text events _ apart

  pppd_text :
      (events : List Ready) (s : State)
      → eqb pppd.id peer.id ≡ false
      → file_text pppd.id (forwarded events s).trace
        ≡ file_text pppd.id s.trace <> concat (peer_bytes events)
  unfolding file_text concat
  pppd_text [] s apart = sym (append-nil _)
  pppd_text (from_peer r ∷ events) s apart =
      pppd_text events _ apart
      ∙ ground (arith, append_assoc (file_text pppd.id s.trace) r.line (concat (peer_bytes events)))
  pppd_text (from_pppd r ∷ events) s apart = pppd_text events _ apart ∙ ground arith
  pppd_text (time_out b ∷ events) s apart = pppd_text events _ apart

  -- While both ends send, no signal comes, FLAG_EXIT is clear and pppd and the peer are two
  -- streams, the loop of `PPPDProcess` on a link that is configured still runs after all
  -- events, and each stream has been written exactly the bytes that the other gave, in their
  -- order, behind what it had been written before.
  pub pppd_loop-file_text :
      (events : List Ready) (s : State)
      → AllQuiet events
      → s.flags.exit ≡ false
      → eqb pppd.id peer.id ≡ false
      → let run = pppd_loop env v pppd peer events true s in
        (run.0 ≡ ret running)
        × (file_text peer.id run.1.trace ≡ file_text peer.id s.trace <> concat (pppd_bytes events))
        × (file_text pppd.id run.1.trace ≡ file_text pppd.id s.trace <> concat (peer_bytes events))
  pppd_loop-file_text events s q x apart =
      rw (pppd_loop-forwarded events s q x)
        (refl, peer_text events s apart, pppd_text events s apart)

  -- If SIGINT comes while the loop of `PPPDProcess` waits and `Active` is NULL, the loop ends by FLAG_EXIT before
  -- anything is passed on: what the signal handler did is all that happened.
  pppd_loop-interrupted :
      (e : Ready) (events : List Ready) (configured : Bool) (s : State)
      → (as_read e).sigint ≡ true
      → s.active ≡ none
      → pppd_loop env v pppd peer (e ∷ events) configured s
        ≡ (ret by_exit, (signal_handler sigint s).1)
  unfolding pppd_loop turn deliver signal_handler set_exit ssh_vpn_terminate ◌>>=◌
  pppd_loop-interrupted e events configured s h n = rw h (ground arith)
