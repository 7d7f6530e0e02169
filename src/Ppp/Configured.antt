-- ===== src/Ppp/Configured.antt =====
-- When the link of `PPPDProcess` is set up (ppp.c, net.c, updown.c).
use vpn_mgr.Base.{
  String, ◌≡◌, refl, Bool, true, false, Option, none, some, List, [], ◌∷◌, if◌then◌else◌,
}
use vpn_mgr.Base.Text.{valid}
use vpn_mgr.Common.Frame.{deliver-Keeps}
use vpn_mgr.Common.{deliver}
use vpn_mgr.Net.{load_lines, load_stream, net_load_devices, net_dev_find_for_ip}
use vpn_mgr.Ppp.{
  Ready, from_pppd, from_peer, time_out, as_read, Ended, running, by_exit, by_pppd, by_peer,
  say_read, forward, turn, pppd_loop, pppd_try_configure, pppd_handle_exit, get_value, log_exit,
}
use vpn_mgr.Process.Keeps.{Keeps, keeps}
use vpn_mgr.Process.Respects.{
  Respects, pure-Respects, if-Respects, emit-Respects, get_flags-Respects, ask-Respects,
  >>=-Respects, respects_rules,
}
use vpn_mgr.Process.{Env, Read, State, Stream, M, ◌>>=◌, ◌>>◌, pure, emit, get_flags, ask, print}
use vpn_mgr.RunCommand.Once.{
  Once, RunsOnce, Tries, quiet-RunsOnce, then-RunsOnce, Tries-RunsOnce, then-Tries, up-Tries,
}
use vpn_mgr.RunCommand.Output.Frame.{clean_up-Keeps}
use vpn_mgr.RunCommand.Runs.{then-Runs}
use vpn_mgr.UpDown.Commands.{Steady, up_commands}
use vpn_mgr.UpDown.Plan.{vpn_up-Runs, log_event-Keeps}
use vpn_mgr.UpDown.{vpn_up}
use vpn_mgr.Vpn.{Vpn}

say_read-Keeps : (side text : String) → Respects Keeps (say_read side text)
unfolding say_read
say_read-Keeps side text = search (respects_rules, keeps) depth 12

get_value-Keeps : (id : _) (key : String) → Respects Keeps (get_value id key)
unfolding get_value pure
get_value-Keeps id key = record { at = λ s. keeps.same s }

log_exit-Keeps : (message : Option String) → Respects Keeps (log_exit message)
unfolding log_exit
log_exit-Keeps none = pure-Respects keeps tt
log_exit-Keeps (some text) = log_event-Keeps _ _ _

module _ (env : Env) where
  load_lines-Keeps : (reads : List Read) → Respects Keeps (load_lines env reads)
  unfolding load_lines
  load_lines-Keeps [] = pure-Respects keeps []
  load_lines-Keeps (r ∷ reads) =
      >>=-Respects keeps (ask env.text _) _ (ask-Respects keeps env.text _) λ ip.
        >>=-Respects keeps (load_lines env reads) _ (load_lines-Keeps reads)
          λ more. pure-Respects keeps _

  load_stream-Keeps : (s : Option Stream) → Respects Keeps (load_stream env s)
  unfolding load_stream
  load_stream-Keeps none = pure-Respects keeps []
  load_stream-Keeps (some s) = search (respects_rules, keeps, load_lines-Keeps) depth 12

  find_for_ip-Keeps : (prefix ip : String) → Respects Keeps (net_dev_find_for_ip env prefix ip)
  unfolding net_dev_find_for_ip net_load_devices
  find_for_ip-Keeps prefix ip = search (respects_rules, keeps, load_stream-Keeps) depth 12

  handle_exit-Keeps : (s : Stream) → Respects Keeps (pppd_handle_exit env s)
  unfolding pppd_handle_exit
  handle_exit-Keeps s =
      search (respects_rules, keeps, clean_up-Keeps, get_value-Keeps, log_exit-Keeps) depth 14

module _ (env : Env) (steady : Steady env) (nodns : Bool) (v : Vpn) (pppd peer : Stream) where
  forward-Keeps : (e : Ready) → Respects Keeps (forward env v pppd peer e)
  unfolding forward
  forward-Keeps (from_pppd r) =
      search (respects_rules, keeps, say_read-Keeps, log_event-Keeps, handle_exit-Keeps) depth 14
  forward-Keeps (from_peer r) =
      search (respects_rules, keeps, say_read-Keeps, log_event-Keeps) depth 14
  forward-Keeps (time_out sigint) = pure-Respects keeps running

  -- One round up to the end of `forward`, with what follows it.
  round-Keeps :
      (e : Ready) (next : Ended → M Ended)
      → ((ended : Ended) → Respects Keeps (next ended))
      → Respects Keeps (
          deliver (as_read e)
          >> (get_flags >>= λ f.
              (if f.exit then pure by_exit else forward env v pppd peer e) >>= next))
  round-Keeps e next h = >>=-Respects keeps (deliver (as_read e)) _ (deliver-Keeps (as_read e)) λ _.
      >>=-Respects keeps get_flags _ (get_flags-Respects keeps) λ f.
        >>=-Respects keeps _ _
          (if-Respects keeps f.exit _ _ (pure-Respects keeps by_exit) (forward-Keeps e)) h

  turn-Keeps :
      (ended : Ended) (again : Bool → M Ended)
      → Respects Keeps (again true)
      → Respects Keeps (turn env v pppd peer ended true again)
  unfolding turn ◌>>=◌
  turn-Keeps running again h = record { at = λ s. h.at s }
  turn-Keeps by_exit again h = pure-Respects keeps by_exit
  turn-Keeps by_pppd again h = pure-Respects keeps by_pppd
  turn-Keeps by_peer again h = pure-Respects keeps by_peer

  configured-Keeps : (events : List Ready) → Respects Keeps (pppd_loop env v pppd peer events true)
  unfolding pppd_loop
  configured-Keeps [] = pure-Respects keeps running
  configured-Keeps (e ∷ events) = round-Keeps e _ (λ ended.
      turn-Keeps ended (λ c. pppd_loop env v pppd peer events c) (configured-Keeps events))

  -- The commands that bring the link up on a device.
  abbrev up_on : String → List String
  up_on dev = up_commands env steady nodns v dev

  branch-Tries :
      (dev text : String) (b : Bool)
      → valid dev ≡ b
      → Tries nodns up_on
          (if b then emit (print text) >> vpn_up env v dev >> pure true else pure false)
  branch-Tries dev text true known =
      up-Tries nodns up_on dev known (emit (print text) >> vpn_up env v dev) (
        then-Runs nodns (emit (print text)) _ _ (emit-Respects keeps _)
          (λ _. vpn_up-Runs env nodns steady v dev))
  branch-Tries dev text false known =
      unfold pure in record { at = λ s n. record { ran = refl; nodns = refl } }

  try_configure-Tries : Tries nodns up_on (pppd_try_configure env v)
  unfolding pppd_try_configure
  try_configure-Tries =
      then-Tries nodns up_on (net_dev_find_for_ip env "ppp" v.local_address) _
        (find_for_ip-Keeps env "ppp" v.local_address) (λ dev. branch-Tries dev _ (valid dev) refl)

  turn-RunsOnce :
      (ended : Ended) (again : Bool → M Ended)
      → Respects Keeps (again true)
      → RunsOnce nodns up_on (again false)
      → RunsOnce nodns up_on (turn env v pppd peer ended false again)
  unfolding turn
  turn-RunsOnce running again p q =
      Tries-RunsOnce nodns up_on (pppd_try_configure env v) again try_configure-Tries p q
  turn-RunsOnce by_exit again p q = quiet-RunsOnce nodns up_on _ (pure-Respects keeps by_exit)
  turn-RunsOnce by_pppd again p q = quiet-RunsOnce nodns up_on _ (pure-Respects keeps by_pppd)
  turn-RunsOnce by_peer again p q = quiet-RunsOnce nodns up_on _ (pure-Respects keeps by_peer)

  loop-RunsOnce :
      (events : List Ready) → RunsOnce nodns up_on (pppd_loop env v pppd peer events false)
  unfolding pppd_loop
  loop-RunsOnce [] = quiet-RunsOnce nodns up_on _ (pure-Respects keeps running)
  loop-RunsOnce (e ∷ events) =
      then-RunsOnce nodns up_on (deliver (as_read e)) _ (deliver-Keeps (as_read e)) λ _.
        then-RunsOnce nodns up_on get_flags _ (get_flags-Respects keeps) λ f.
          then-RunsOnce nodns up_on _ _
            (if-Respects keeps f.exit _ _ (pure-Respects keeps by_exit) (forward-Keeps e))
            λ ended.
              turn-RunsOnce ended (λ c. pppd_loop env v pppd peer events c)
                (configured-Keeps events) (loop-RunsOnce events)

module _ (env : Env) (steady : Steady env) (v : Vpn) (pppd peer : Stream) where
  -- If the process id is always the same and so is the answer whether a script may be executed, the
  -- loop of `PPPDProcess` on a link that is not configured brings it up at most once, whatever the
  -- events are: it hands no command to `RunCommand`, or those with which `VpnUp` brings the link up
  -- on one device with a name; all of them where it returns, and else a beginning of them.
  pub pppd_loop_refines :
      (events : List Ready) (s : State)
      → Once
          (up_commands env steady s.flags.nodns v)
          s
          (pppd_loop env v pppd peer events false s).0
          (pppd_loop env v pppd peer events false s).1
  pppd_loop_refines events s = (loop-RunsOnce env steady s.flags.nodns v pppd peer events).at s refl
