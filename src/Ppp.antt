-- ===== src/Ppp.antt =====
-- The local pppd (ppp.c).
pub mod Laws
pub mod Configured
use vpn_mgr.Base.{
  ℕ, String, ◌<>◌, Bool, true, false, not, ◌&&◌, ◌||◌, Option, none, some, List, [], ◌∷◌, ◌==◌, eqb,
  ltb, if◌then◌else◌,
}
use vpn_mgr.Base.Chars.{atoi, show_int}
use vpn_mgr.Base.Text.{valid}
use vpn_mgr.Common.{deliver, log_event}
use vpn_mgr.Net.{net_dev_find_for_ip}
use vpn_mgr.Process.{
  Event, set_value, Read, Stream, Env, State, M, ◌>>=◌, ◌>>◌, pure, emit, get_flags, print, write,
  close, log_error, log_info,
}
use vpn_mgr.RunCommand.Format.{CmdFlags, no_flags}
use vpn_mgr.RunCommand.Launch.{run_command_open}
use vpn_mgr.RunCommand.Output.{clean_up}
use vpn_mgr.UpDown.{vpn_up}
use vpn_mgr.Vpn.{Vpn}

-- PPPD_OPTIONS
abbrev pub pppd_options : String
pppd_options = "nodetach nodefaultroute ipcp-accept-remote lcp-echo-interval 30 lcp-echo-failure 4"

-- `STREAMGetValue`: the value that was set last.
unfoldable pub value_of : ℕ → String → List Event → String
value_of id key [] = ""
value_of id key (set_value i k v ∷ earlier) =
    if eqb id i && k == key then v else value_of id key earlier
value_of id key (_ ∷ earlier) = value_of id key earlier

unfoldable pub get_value : ℕ → String → M String
get_value id key s = pure (value_of id key s.trace) s

-- The `switch` of `PPPDHandleExit`: what an exit status of pppd means.
unfoldable pub exit_message : ℕ → Option String
exit_message status =
    if eqb status 2
    then some "fatal error: pppd encountered a system error"
    else if eqb status 3
    then some "bad command-line options to pppd"
    else if eqb status 4
    then some "insufficient permission: we are not root, nor suid-root"
    else if eqb status 5
    then some "kernel does not support PPP"
    else if eqb status 7
    then some "unable to lock serial port"
    else if eqb status 8
    then some "unable to open serial port"
    else if eqb status 9
    then some "connect script failed"
    else if eqb status 10
    then some "pty command cound not be run"
    else if eqb status 11
    then some "cannot negotiate a network protocol"
    else if eqb status 12
    then some "cannot authenticate peer"
    else if eqb status 13
    then some "link closed, idle timeout"
    else if eqb status 14
    then some "link closed, connect time limit"
    else if eqb status 18
    then some "serial line is looped back"
    else if eqb status 19
    then some "init script failed"
    else if eqb status 20
    then some "cannot authenticate ourselves to peer"
    else none

unfoldable pub log_exit : Option String → M (Unit {0})
log_exit none = pure tt
log_exit (some message) = log_event log_error "PPPD" message

-- The address that the link starts with.
unfoldable pub with_local_address : Vpn → Vpn
with_local_address v =
    if valid v.local_address then v else record v { local_address = "172.16.0.2" }

-- The command line of pppd.
unfoldable pub pppd_command : Vpn → String
unfolding with_local_address
pppd_command v =
    "pppd "
    <> show_int v.line_speed
    <> " "
    <> pppd_options
    <> " "
    <> (if valid v.local_address then "" else " ipcp-accept-local ")
    <> (if valid v.remote_address then "" else " ipcp-accept-remote ")
    <> " "
    <> (with_local_address v).local_address
    <> ":"
    <> v.remote_address
    <> " "
    <> (if valid v.ppp_auth then " name " <> v.ppp_auth else "")
    <> (if v.verify_peer then " auth " else " noauth ")
    <> (if v.dns == "peer" then " usepeerdns " else "")
    <> (if valid v.name then " linkname " <> v.name else "")
    <> (if ltb 0 v.mtu then "mtu " <> show_int v.mtu <> " " else "")

abbrev pub pppd_flags : CmdFlags
pppd_flags = record no_flags { sudo = true; su = true; no_stderr = true }

module _ (env : Env) where
  -- Gives the stream of pppd, and the context with its address.
  unfoldable pub pppd_launch : Vpn → M (Option Stream × Vpn)
  pppd_launch v = do
    log_event log_error "PPPDLaunch" ("[" <> pppd_command v <> "]")
    s ← run_command_open env (pppd_command v) pppd_flags
    (elim s [ none ↦ emit (print "~rFATAL:~0 failed to launch local PPPD\n") | some _ ↦ pure tt ])
    pure (s, with_local_address v)

  unfoldable pub pppd_handle_exit : Stream → M (Unit {0})
  pppd_handle_exit s = do
    clean_up env s no_flags
    status ← get_value s.id "ExitStatus"
    if valid status then log_exit (exit_message (atoi status)) else pure tt

  unfoldable pub pppd_try_configure : Vpn → M Bool
  pppd_try_configure v = do
    dev ← net_dev_find_for_ip env "ppp" v.local_address
    if valid dev
        then emit (print ("~cPPP:~0 link ~gUP~0 local dev " <> dev <> "\n"))
          >> vpn_up env v dev
          >> pure true
        else pure false

-- What `STREAMSelect` gives: pppd or the peer can be read, with an empty text at the end of the
-- stream, or the time is up.
pub data Ready : Type 0 where
  from_pppd from_peer : Read → Ready
  time_out : Bool → Ready

abbrev pub as_read : Ready → Read
as_read (from_pppd r) = r
as_read (from_peer r) = r
as_read (time_out sigint) = record { line = ""; sigint = sigint }

-- How the loop of `PPPDProcess` ended, or that it still runs when the events are used up.
pub data Ended : Type 0 where
  running by_exit by_pppd by_peer : Ended

abbrev pub configure_once : Env → Vpn → Bool → M Bool
configure_once env v configured = if configured then pure true else pppd_try_configure env v

-- What is said with FLAG_DEBUG of the bytes that were read.
unfoldable pub say_read : String → String → M (Unit {0})
say_read side text = do
  f ← get_flags
  if f.debug then emit (print ("PPPD: read from " <> side <> ": " <> text <> "\n")) else pure tt

module _ (env : Env) (v : Vpn) (pppd peer : Stream) where
  -- One turn of the loop behind the test of FLAG_EXIT, up to the bytes that are passed on.
  unfoldable pub forward : Ready → M Ended
  forward (from_pppd r) =
      if valid r.line
      then say_read "local" r.line >> emit (write peer.id r.line) >> pure running
      else log_event log_info "PPPD" "local endpoint disconnected"
        >> pppd_handle_exit env pppd
        >> pure by_pppd
  forward (from_peer r) =
      if valid r.line
      then say_read "remote" r.line >> emit (write pppd.id r.line) >> pure running
      else log_event log_info "PPPD" "remote endpoint disconnected" >> pure by_peer
  forward (time_out sigint) = pure running

  -- What follows `forward`: the end of the loop, or the configuration and the next turn.
  unfoldable pub turn : Ended → Bool → (Bool → M Ended) → M Ended
  turn running configured again = configure_once env v configured >>= again
  turn ended configured again = pure ended

  -- The loop. `configured` is `EndpointConfigured`.
  unfoldable pub pppd_loop : List Ready → Bool → M Ended
  pppd_loop [] configured = pure running
  pppd_loop (e ∷ events) configured = do
    deliver (as_read e)
    f ← get_flags
    ended ← (if f.exit then pure by_exit else forward e)
    turn ended configured (λ c. pppd_loop events c)

-- `STREAMClose(PPPD)`, behind the loop.
unfoldable pub close_pppd : Stream → Ended → M (Unit {0})
close_pppd pppd running = pure tt
close_pppd pppd _ = emit (close pppd.id)

module _ (env : Env) where
  -- The events are those of the loop's calls of `STREAMSelect`.
  unfoldable pub pppd_process : Vpn → Stream → List Ready → M Vpn
  pppd_process v peer events = do
    emit (print "Launch LOCAL pppd\n")
    (s, v') ← pppd_launch env v
    (elim s [
      | none ↦ pure tt
      | some pppd ↦ pppd_loop env v' pppd peer events false >>= close_pppd pppd
    ])
    pure v'
