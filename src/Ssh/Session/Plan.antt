-- ===== src/Ssh/Session/Plan.antt =====
-- Which commands a session runs at this end, once ssh is started (ssh.c, updown.c).
use vpn_mgr.Base.{
  String, ◌<>◌, ◌≡◌, refl, ◌∙◌, Bool, true, Option, none, some, List, [], ◌∷◌, ◌++◌, if◌then◌else◌,
}
use vpn_mgr.Common.Frame.{deliver-Keeps}
use vpn_mgr.Common.{deliver}
use vpn_mgr.Net.{net_get_default_ip}
use vpn_mgr.Process.Keeps.{Keeps, keeps}
use vpn_mgr.Process.Respects.{
  Respects, pure-Respects, if-Respects, get_flags-Respects, emit-Respects, >>=-Respects,
  respects_rules,
}
use vpn_mgr.Process.{
  Env, State, Res, ret, stop, fault, continue, M, Read, Stream, ◌>>=◌, ◌>>◌, pure, emit, get_flags,
  print,
}
use vpn_mgr.Route.{read_routes, route_get_default_dev}
use vpn_mgr.RunCommand.Format.{no_flags}
use vpn_mgr.RunCommand.Output.Frame.{clean_up-Keeps}
use vpn_mgr.RunCommand.Output.{clean_up}
use vpn_mgr.RunCommand.Runs.{
  CarriedOut, Runs, chain, quiet-Runs, if-Runs, >>=-Runs, then-Runs, then_quiet,
}
use vpn_mgr.Ssh.Remote.Frame.{
  ssh_vpn_sync-Keeps, ssh_vpn_run_command-Keeps, ssh_get_remote_dev-Keeps,
}
use vpn_mgr.Ssh.Session.{
  own_address, route_back, ssh_setup, process_loop, ssh_process, set_active, close_session,
  run_session,
}
use vpn_mgr.UpDown.Commands.{Steady, up_commands, down_commands}
use vpn_mgr.UpDown.Plan.{vpn_up-Runs, vpn_down-Runs}
use vpn_mgr.UpDown.{vpn_up, vpn_down}
use vpn_mgr.Vpn.{Vpn}

module _ (env : Env) where
  read_routes-Keeps :
      (f : List Read → String) (s : Option Stream) → Respects Keeps (read_routes env f s)
  unfolding read_routes
  read_routes-Keeps f none = pure-Respects keeps ""
  read_routes-Keeps f (some s) = search (respects_rules, keeps) depth 12

  default_ip-Keeps : Respects Keeps (net_get_default_ip env)
  unfolding net_get_default_ip route_get_default_dev
  default_ip-Keeps = search (respects_rules, keeps, read_routes-Keeps) depth 12

  own_address-Keeps : (v : Vpn) → Respects Keeps (own_address env v)
  unfolding own_address
  own_address-Keeps v = search (respects_rules, keeps, default_ip-Keeps) depth 14

  route_back-Keeps : (v : Vpn) (s : Stream) (dev : String) → Respects Keeps (route_back env v s dev)
  unfolding route_back
  route_back-Keeps v s dev = search (respects_rules, keeps, ssh_vpn_run_command-Keeps) depth 16

  ssh_setup-Keeps : (v : Vpn) (s : Stream) → Respects Keeps (ssh_setup env v s)
  unfolding ssh_setup
  ssh_setup-Keeps v s =
      search
        (
          respects_rules, keeps, ssh_vpn_sync-Keeps, ssh_get_remote_dev-Keeps, own_address-Keeps,
          route_back-Keeps,
        )
        depth 24

  process_loop-Keeps : (reads : List Read) → Respects Keeps (process_loop env reads)
  unfolding process_loop
  process_loop-Keeps [] = pure-Respects keeps tt
  process_loop-Keeps (r ∷ reads) = >>=-Respects keeps (deliver r) _ (deliver-Keeps r) λ _.
      >>=-Respects keeps _ _
        (if-Respects keeps _ _ _ (emit-Respects keeps _) (pure-Respects keeps tt))
        λ _.
          >>=-Respects keeps get_flags _ (get_flags-Respects keeps)
            λ f. if-Respects keeps f.exit _ _ (pure-Respects keeps tt) (process_loop-Keeps reads)

  ssh_process-Keeps : (s : Stream) → Respects Keeps (ssh_process env s)
  unfolding ssh_process
  ssh_process-Keeps s = search (respects_rules, keeps, process_loop-Keeps) depth 12

  set_active-Keeps : (s : Stream) → Respects Keeps (set_active env s)
  unfolding set_active pure
  set_active-Keeps stream = record {
    at = λ s. record {
      ran = refl;
      found = refl;
      nodns = refl;
      exit = λ h. h;
      su = refl;
      sudo = λ h. h;
    };
  }

  close_session-Keeps : (s : Stream) → Respects Keeps (close_session env s)
  unfolding close_session emit
  close_session-Keeps stream = record {
    at = λ s. record {
      ran = refl;
      found = refl;
      nodns = refl;
      exit = λ h. h;
      su = refl;
      sudo = λ h. h;
    };
  }

-- The commands of a session by what `SSHSetup` gave: where it returned, those that bring the link
-- up if the remote end has a device, and those that take it down.
abbrev pub session_commands :
    (env : Env) → Steady env → Bool → String → Res (Bool × Vpn × Stream) → List String
session_commands env steady nodns dev (ret (ready, v, s)) =
    (if ready then up_commands env steady nodns v dev else []) ++ down_commands env steady v dev
session_commands env steady nodns dev (stop c) = []
session_commands env steady nodns dev fault = []

module _ (env : Env) (steady : Steady env) (nodns : Bool) (dev : String) where
  -- What follows `SSHSetup`.
  abbrev session : Bool → Vpn → Stream → M (Unit {0})
  session ready v s = do
    (if ready
        then vpn_up env v dev
          >> set_active env s
          >> emit (print ("~gVPN UP:~0 dev=" <> dev <> "\n"))
          >> ssh_process env s
        else pure tt)
    clean_up env s (record no_flags { kill = true })
    close_session env s
    vpn_down env v dev

  abbrev up_on : Vpn → List String
  up_on v = up_commands env steady nodns v dev

  up_session-Runs :
      (v : Vpn) (s : Stream)
      → Runs nodns
          (vpn_up env v dev
            >> set_active env s
            >> emit (print ("~gVPN UP:~0 dev=" <> dev <> "\n"))
            >> ssh_process env s)
          (up_on v)
  up_session-Runs v s =
      then_quiet nodns _ (ssh_process env s) _
        (then_quiet nodns _ (emit _) _
          (then_quiet nodns (vpn_up env v dev) (set_active env s) _
            (vpn_up-Runs env nodns steady v dev) (set_active-Keeps env s))
          (emit-Respects keeps _))
        (ssh_process-Keeps env s)

  session-Runs :
      (ready : Bool) (v : Vpn) (s : Stream)
      → Runs nodns (session ready v s) (session_commands env steady nodns dev (ret (ready, v, s)))
  session-Runs ready v s =
      >>=-Runs nodns _ _ (if ready then up_on v else []) _
        (if-Runs nodns ready _ _ (up_on v) [] (up_session-Runs v s)
          (quiet-Runs nodns (pure tt) (pure-Respects keeps tt)))
        λ _. then-Runs nodns (clean_up env s _) _ _ (clean_up-Keeps env s _) λ _.
          then-Runs nodns (close_session env s) _ _ (close_session-Keeps env s)
            (λ _. vpn_down-Runs env nodns steady v dev)

  from_setup :
      (r : Res (Bool × Vpn × Stream)) (s t : State)
      → s.flags.nodns ≡ nodns
      → Keeps s t
      → CarriedOut
          (session_commands env steady nodns dev r)
          s
          (continue r (λ (ready, v, stream). session ready v stream) t).0
          (continue r (λ (ready, v, stream). session ready v stream) t).1
  from_setup (ret (ready, v, stream)) s t n k =
      chain [] (session_commands env steady nodns dev (ret (ready, v, stream)))
        (session ready v stream t).0 s t (session ready v stream t).1
        (record { ran = k.ran; nodns = k.nodns }) ((session-Runs ready v stream).at t (k.nodns ∙ n))
  from_setup (stop c) s t n k = ([], [], refl, k.ran)
  from_setup fault s t n k = ([], [], refl, k.ran)

module _ (env : Env) (steady : Steady env) (v : Vpn) (dev : String) (stream : Stream) where
  -- If the process id is always the same and so is the answer whether a script may be executed, a
  -- session over ssh, once ssh is started, carries out a plan: where `SSHSetup` returns, the
  -- commands with which `VpnUp` brings the link up if the remote end has named a device, and then,
  -- in either case, those with which `VpnDown` takes it down, both of the context that `SSHSetup`
  -- gives; else none. Where the session returns it has called `RunCommand` for all of the plan's
  -- commands in this order and for no other; where it ends the process, for a beginning of them.
  pub run_session_refines :
      (s : State)
      → CarriedOut
          (session_commands env steady s.flags.nodns dev (ssh_setup env v stream s).0)
          s
          (run_session env v dev stream s).0
          (run_session env v dev stream s).1
  unfolding run_session ◌>>=◌
  run_session_refines s =
      from_setup env steady s.flags.nodns dev (ssh_setup env v stream s).0 s
        (ssh_setup env v stream s).1 refl ((ssh_setup-Keeps env v stream).at s)
