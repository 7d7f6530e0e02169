-- ===== src/Orderly/Devices.antt =====
-- Tunnel devices and the link with a local pppd (tuntap.c, ppp.c).
use vpn_mgr.Base.{ℕ, String, Bool, true, false, Option, none, some, List, [], ◌∷◌, if◌then◌else◌}
use vpn_mgr.Common.{deliver, log_event}
use vpn_mgr.RunCommand.Launch.{run_command_open}
use vpn_mgr.Orderly.Commands.{
  deliver-Orderly, log_event-Orderly, run_command-Orderly, run_command_open-Orderly,
  clean_up-Orderly,
}
use vpn_mgr.Orderly.Network.{net_dev_exists-Orderly, net_dev_find_for_ip-Orderly, vpn_up-Orderly}
use vpn_mgr.Ppp.{
  pppd_command, pppd_flags, get_value, log_exit, pppd_launch, pppd_handle_exit, pppd_try_configure,
  Ready, from_pppd, from_peer, time_out, as_read, Ended, running, by_exit, by_pppd, by_peer,
  configure_once, say_read, forward, turn, pppd_loop, close_pppd, pppd_process,
}
use vpn_mgr.Process.Orderly.{
  Orderly, Ordered-trace, >>=-Orderly, if-Orderly, pure-Orderly, emit-Orderly, get_flags-Orderly,
  Option-Orderly, orderly_rules,
}
use vpn_mgr.Process.{Env, M, Stream, ◌>>=◌, get_flags, pure, emit}
use vpn_mgr.RunCommand.Output.{RunResult, run_okay}
use vpn_mgr.TunTap.{
  tun_modprobe, tun_problem, tun_available, create_device, activate_device, tun_setup, tun_shutdown,
}
use vpn_mgr.Vpn.{Vpn}

get_value-Orderly : (id : ℕ) (key : String) → Orderly (get_value id key)
unfolding get_value ◌>>=◌
get_value-Orderly id key = record { at = λ s. (tt, Ordered-trace s s.trace) }

log_exit-Orderly : (o : Option String) → Orderly (log_exit o)
unfolding log_exit
log_exit-Orderly none = pure-Orderly tt
log_exit-Orderly (some message) = log_event-Orderly _ _ _

close_pppd-Orderly : (pppd : Stream) (e : Ended) → Orderly (close_pppd pppd e)
unfolding close_pppd
close_pppd-Orderly pppd running = search orderly_rules
close_pppd-Orderly pppd _ = search orderly_rules

module _ (env : Env) where
  tun_modprobe-Orderly : Orderly (tun_modprobe env)
  unfolding tun_modprobe
  tun_modprobe-Orderly = search (orderly_rules, run_command-Orderly) depth 16

  tun_problem-Orderly : Orderly (tun_problem env)
  unfolding tun_problem
  tun_problem-Orderly = search (orderly_rules, log_event-Orderly) depth 20

  pub tun_available-Orderly : Orderly (tun_available env)
  unfolding tun_available
  tun_available-Orderly =
      search (orderly_rules, tun_modprobe-Orderly, run_command-Orderly, tun_problem-Orderly) depth
        16

  create_device-Orderly : (type name : String) (b : Bool) → Orderly (create_device env type name b)
  unfolding create_device
  create_device-Orderly type name true = pure-Orderly run_okay
  create_device-Orderly type name false =
      search (orderly_rules, tun_available-Orderly, run_command-Orderly) depth 14

  activate_device-Orderly :
      (name address : String) (r : RunResult) → Orderly (activate_device env name address r)
  unfolding activate_device
  activate_device-Orderly name address run_okay =
      search (orderly_rules, run_command-Orderly, net_dev_exists-Orderly) depth 18
  activate_device-Orderly name address _ = search (orderly_rules, log_event-Orderly) depth 14

  pub tun_setup-Orderly : (type name address : String) → Orderly (tun_setup env type name address)
  unfolding tun_setup
  tun_setup-Orderly type name address =
      search (orderly_rules, net_dev_exists-Orderly, create_device-Orderly, activate_device-Orderly)
        depth 14

  pub tun_shutdown-Orderly : (dev : String) → Orderly (tun_shutdown env dev)
  unfolding tun_shutdown
  tun_shutdown-Orderly dev = search (orderly_rules, run_command-Orderly) depth 16

  pub pppd_launch-Orderly : (v : Vpn) → Orderly (pppd_launch env v)
  unfolding pppd_launch
  pppd_launch-Orderly v = >>=-Orderly (log_event _ _ _) _ (log_event-Orderly _ _ _) λ _.
      >>=-Orderly (run_command_open env (pppd_command v) pppd_flags) _
        (run_command_open-Orderly env (pppd_command v) pppd_flags)
        λ s.
          >>=-Orderly _ _ (Option-Orderly s _ _ (emit-Orderly _) (λ _. pure-Orderly tt))
            (λ _. pure-Orderly _)

  pppd_handle_exit-Orderly : (s : Stream) → Orderly (pppd_handle_exit env s)
  unfolding pppd_handle_exit
  pppd_handle_exit-Orderly s =
      search (orderly_rules, clean_up-Orderly, get_value-Orderly, log_exit-Orderly) depth 14

  pppd_try_configure-Orderly : (v : Vpn) → Orderly (pppd_try_configure env v)
  unfolding pppd_try_configure
  pppd_try_configure-Orderly v =
      search (orderly_rules, net_dev_find_for_ip-Orderly, vpn_up-Orderly) depth 14

  module _ (v : Vpn) (pppd peer : Stream) where
    say_read-Orderly : (side text : String) → Orderly (say_read side text)
    unfolding say_read
    say_read-Orderly side text = search orderly_rules depth 12

    forward-Orderly : (e : Ready) → Orderly (forward env v pppd peer e)
    unfolding forward
    forward-Orderly (from_pppd r) =
        search (orderly_rules, say_read-Orderly, log_event-Orderly, pppd_handle_exit-Orderly) depth
          14
    forward-Orderly (from_peer r) =
        search (orderly_rules, say_read-Orderly, log_event-Orderly) depth 14
    forward-Orderly (time_out sigint) = pure-Orderly running

    turn-Orderly :
        (e : Ended) (configured : Bool) (again : Bool → M Ended)
        → ((c : Bool) → Orderly (again c))
        → Orderly (turn env v pppd peer e configured again)
    unfolding turn
    turn-Orderly running configured again h =
        >>=-Orderly (configure_once env v configured) again
          (if-Orderly configured _ _ (pure-Orderly true) (pppd_try_configure-Orderly v)) h
    turn-Orderly by_exit configured again h = pure-Orderly by_exit
    turn-Orderly by_pppd configured again h = pure-Orderly by_pppd
    turn-Orderly by_peer configured again h = pure-Orderly by_peer

    pppd_loop-Orderly :
        (events : List Ready) (configured : Bool)
        → Orderly (pppd_loop env v pppd peer events configured)
    unfolding pppd_loop
    pppd_loop-Orderly [] configured = pure-Orderly running
    pppd_loop-Orderly (e ∷ events) configured =
        >>=-Orderly (deliver (as_read e)) _ (deliver-Orderly (as_read e)) λ _.
          >>=-Orderly get_flags _ get_flags-Orderly λ f.
            >>=-Orderly (if f.exit then pure by_exit else forward env v pppd peer e) _
              (if-Orderly f.exit _ _ (pure-Orderly by_exit) (forward-Orderly e))
              λ ended. turn-Orderly ended configured _ (pppd_loop-Orderly events)

  pub pppd_process-Orderly :
      (v : Vpn) (peer : Stream) (events : List Ready) → Orderly (pppd_process env v peer events)
  unfolding pppd_process
  pppd_process-Orderly v peer events = >>=-Orderly (emit _) _ (emit-Orderly _) λ _.
      >>=-Orderly (pppd_launch env v) _ (pppd_launch-Orderly v) λ r.
        >>=-Orderly _ _
          (Option-Orderly r.0 _ _ (pure-Orderly tt) (λ pppd.
            >>=-Orderly (pppd_loop env r.1 pppd peer events false) (close_pppd pppd)
              (pppd_loop-Orderly r.1 pppd peer events false) (close_pppd-Orderly pppd)))
          (λ _. pure-Orderly _)
