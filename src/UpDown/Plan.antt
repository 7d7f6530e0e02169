-- ===== src/UpDown/Plan.antt =====
-- How `VpnUp` and `VpnDown` carry out their commands (updown.c, net.c, route.c, resolv.c).
use mathlib.Core.List.{append-nil}
use mathlib.Core.Path.{subst}
use vpn_mgr.Base.{
  ℕ, String, Option, none, some, ◌<>◌, ◌≡◌, refl, Bool, true, false, not, ◌&&◌, List, [], ◌∷◌, ◌++◌,
  map, if◌then◌else◌,
}
use vpn_mgr.Base.Chars.{show}
use vpn_mgr.Base.Text.{valid}
use vpn_mgr.Common.{log_event}
use vpn_mgr.Net.{is_connect, set_address, net_setup, net_shutdown}
use vpn_mgr.Process.Keeps.{Keeps, keeps}
use vpn_mgr.Process.Respects.{
  Respects, pure-Respects, emit-Respects, ask-Respects, >>=-Respects, respects_rules,
}
use vpn_mgr.Process.{
  Stream, Env, State, ◌>>◌, pure, emit, ask, access, x_ok, get_pid, write, LogLevel,
}
use vpn_mgr.Resolv.{write_servers, write_resolv, resolv_change}
use vpn_mgr.Route.Laws.{command_for}
use vpn_mgr.Route.{route_setup, route_setup_all}
use vpn_mgr.RunCommand.Format.{cmd_asroot}
use vpn_mgr.RunCommand.Launch.{run_command}
use vpn_mgr.RunCommand.Runs.{
  CarriedOut, Runs, quiet-Runs, if-Runs, >>=-Runs, then-Runs, ask-Runs, get_flags-Runs,
  run_command-Runs,
}
use vpn_mgr.UpDown.Commands.{
  Steady, address_commands, route_commands, resolver_commands, runnable, script_commands,
  up_commands, down_commands,
}
use vpn_mgr.UpDown.{script_command, run_scripts, up_down_run_files, vpn_up, vpn_down}
use vpn_mgr.Vpn.{Vpn}

pub log_event-Keeps : (l : _) (title text : String) → Respects Keeps (log_event l title text)
unfolding log_event
log_event-Keeps l title text = search (respects_rules, keeps) depth 12

write_servers-Keeps : (id : ℕ) (servers : List String) → Respects Keeps (write_servers id servers)
unfolding write_servers
write_servers-Keeps id [] = search (respects_rules, keeps) depth 12
write_servers-Keeps id (x ∷ servers) =
    >>=-Respects keeps (emit (write id ("nameserver " <> x <> "\n"))) _ (emit-Respects keeps _)
      (λ _. write_servers-Keeps id servers)

write_resolv-Keeps :
    (servers : List String) (s : Option Stream) → Respects Keeps (write_resolv servers s)
unfolding write_resolv
write_resolv-Keeps servers none = search (respects_rules, keeps) depth 12
write_resolv-Keeps servers (some s) = search (respects_rules, keeps, write_servers-Keeps) depth 12

-- The commands of a list of scripts, from what is known of the first.
script-first :
    (b : Bool) (f : String → String) (script : String) (more : List String)
    → (if b then f script ∷ [] else []) ++ map f more ≡ map f (if b then script ∷ more else more)
script-first true f script more = refl
script-first false f script more = refl

module _ (env : Env) (nodns : Bool) where
  pub one_command : (c : String) → Runs nodns (run_command env c cmd_asroot >> pure tt) (c ∷ [])
  one_command c =
      >>=-Runs nodns (run_command env c cmd_asroot) _ (c ∷ []) []
        (run_command-Runs env nodns c cmd_asroot)
        (λ _. quiet-Runs nodns (pure tt) (pure-Respects keeps tt))

  set_address-Runs :
      (v : Vpn) (dev : String) → Runs nodns (set_address env v dev) (address_commands v dev)
  unfolding set_address
  set_address-Runs v dev =
      if-Runs nodns (not (valid v.local_address)) _ _ [] _
        (quiet-Runs nodns (pure tt) (pure-Respects keeps tt))
        (then-Runs nodns (emit _) _ _ (emit-Respects keeps _) (λ _. one_command _))

  route_setup_all-Runs :
      (dev : String) (items : List String)
      → Runs nodns (route_setup_all env dev items) (map (command_for env dev) items)
  unfolding route_setup_all
  route_setup_all-Runs dev [] = quiet-Runs nodns (pure tt) (pure-Respects keeps tt)
  route_setup_all-Runs dev (item ∷ items) =
      then-Runs nodns (emit _) _ _ (emit-Respects keeps _) λ _.
        >>=-Runs nodns (run_command env (command_for env dev item) cmd_asroot) _
          (command_for env dev item ∷ []) _
          (run_command-Runs env nodns (command_for env dev item) cmd_asroot)
          (λ _. route_setup_all-Runs dev items)

  module _ (steady : Steady env) where
    pub resolv_change-Runs :
        (v : Vpn)
        → Runs nodns (resolv_change env v.dns) (
            "mv /etc/resolv.conf /etc/vpn_mgr.resolv.save"
            ∷ ("mv -f "
                <> ("/tmp/vpn_mgr-" <> show steady.pid <> ".resolv.conf")
                <> " /etc/resolv.conf")
            ∷ [])
    unfolding resolv_change
    resolv_change-Runs v = ask-Runs nodns env.number get_pid steady.pid _ _ steady.is_pid (
        then-Runs nodns (ask env.stream _) _ _ (ask-Respects keeps env.stream _) λ s.
          then-Runs nodns (write_resolv _ s) _ _ (write_resolv-Keeps _ s) λ _.
            >>=-Runs nodns (run_command env _ cmd_asroot) _ (_ ∷ []) _
              (run_command-Runs env nodns _ cmd_asroot) (λ _. one_command _))

    resolver-Runs :
        (v : Vpn) (b : Bool)
        → b ≡ nodns
        → Runs nodns
            (if not b && valid v.dns then resolv_change env v.dns else pure tt)
            (resolver_commands nodns v steady.pid)
    resolver-Runs v b e = rw e (
        if-Runs nodns (not nodns && valid v.dns) _ _ _ _ (resolv_change-Runs v)
          (quiet-Runs nodns (pure tt) (pure-Respects keeps tt)))

    net_setup-Runs :
        (v : Vpn) (dev : String)
        → Runs nodns (net_setup env v dev) (
            address_commands v dev
            ++ (route_commands env v dev ++ resolver_commands nodns v steady.pid))
    unfolding net_setup route_setup
    net_setup-Runs v dev =
        >>=-Runs nodns (set_address env v dev) _ (address_commands v dev) _ (set_address-Runs v dev)
          λ _.
            >>=-Runs nodns
              (if is_connect v.action && valid v.allowed_ips
                then route_setup env v.allowed_ips dev
                else pure tt)
              _ (route_commands env v dev) _
              (if-Runs nodns (is_connect v.action && valid v.allowed_ips) _ _ _ []
                (route_setup_all-Runs dev (env.tokens v.allowed_ips ","))
                (quiet-Runs nodns (pure tt) (pure-Respects keeps tt)))
              λ _. get_flags-Runs nodns _ _ (λ g e. resolver-Runs v g.nodns e)

    run_scripts-Runs :
        (v : Vpn) (dev : String) (files : List String)
        → Runs nodns
            (run_scripts env v dev files)
            (map (script_command v dev) (runnable steady.executable files))
    unfolding run_scripts
    run_scripts-Runs v dev [] = quiet-Runs nodns (pure tt) (pure-Respects keeps tt)
    run_scripts-Runs v dev (script ∷ more) =
        subst (Runs nodns (run_scripts env v dev (script ∷ more)))
          (script-first (steady.executable script) (script_command v dev) script
            (runnable steady.executable more))
          (ask-Runs nodns env.yes (access script x_ok) (steady.executable script) _ _
            (steady.is_executable script)
            (>>=-Runs nodns _ _ _ _
              (if-Runs nodns (steady.executable script) _ _ _ _
                (one_command (script_command v dev script))
                (quiet-Runs nodns (pure tt) (pure-Respects keeps tt)))
              (λ _. run_scripts-Runs v dev more)))

    scripts-Runs :
        (v : Vpn) (dev files : String)
        → Runs nodns
            (if valid files then up_down_run_files env v files dev else pure tt)
            (script_commands env steady.executable v dev files)
    unfolding up_down_run_files
    scripts-Runs v dev files =
        if-Runs nodns (valid files) _ _ _ [] (run_scripts-Runs v dev (env.tokens files ":"))
          (quiet-Runs nodns (pure tt) (pure-Respects keeps tt))

    -- The scripts, and then the log.
    scripts_log-Runs :
        (v : Vpn) (dev files title text : String) (level : LogLevel)
        → Runs nodns
            ((if valid files then up_down_run_files env v files dev else pure tt)
              >> log_event level title text)
            (script_commands env steady.executable v dev files ++ [])
    scripts_log-Runs v dev files title text level =
        >>=-Runs nodns (if valid files then up_down_run_files env v files dev else pure tt) _ _ []
          (scripts-Runs v dev files)
          (λ _. quiet-Runs nodns (log_event level title text) (log_event-Keeps level title text))

    pub vpn_up-Runs :
        (v : Vpn) (dev : String)
        → Runs nodns (vpn_up env v dev) (up_commands env steady nodns v dev)
    unfolding vpn_up
    vpn_up-Runs v dev = >>=-Runs nodns (net_setup env v dev) _ _ _ (net_setup-Runs v dev) λ _.
        subst (Runs nodns _) (append-nil (script_commands env steady.executable v dev v.up_file))
          (scripts_log-Runs v dev v.up_file _ _ _)

    net_shutdown-Runs :
        (dev : String)
        → Runs nodns
            (net_shutdown env dev)
            (("ifconfig " <> dev <> " down") ∷ ("ip link delete dev " <> dev) ∷ [])
    unfolding net_shutdown
    net_shutdown-Runs dev = then-Runs nodns (emit _) _ _ (emit-Respects keeps _) λ _.
        >>=-Runs nodns (run_command env _ cmd_asroot) _ (_ ∷ []) _
          (run_command-Runs env nodns _ cmd_asroot)
          λ _. then-Runs nodns (emit _) _ _ (emit-Respects keeps _) (λ _. one_command _)

    pub vpn_down-Runs :
        (v : Vpn) (dev : String) → Runs nodns (vpn_down env v dev) (down_commands env steady v dev)
    unfolding vpn_down
    vpn_down-Runs v dev = >>=-Runs nodns (net_shutdown env dev) _ _ _ (net_shutdown-Runs dev) λ _.
        subst (Runs nodns _) (append-nil (script_commands env steady.executable v dev v.down_file))
          (scripts_log-Runs v dev v.down_file _ _ _)

module _ (env : Env) (steady : Steady env) (v : Vpn) (dev : String) (s : State) where
  -- If the process id is always the same and so is the answer whether a script may be executed,
  -- `VpnUp` carries out the plan: the address, then the routes of a client, then the name
  -- servers unless FLAG_NODNS is set, then the up scripts that may be executed. Where it
  -- returns it has called `RunCommand` for all of the plan's commands in this order and for no
  -- other; where it ends the process, for a beginning of them.
  pub vpn_up_refines :
      CarriedOut
        (up_commands env steady s.flags.nodns v dev)
        s
        (vpn_up env v dev s).0
        (vpn_up env v dev s).1
  vpn_up_refines = (vpn_up-Runs env s.flags.nodns steady v dev).at s refl

  -- If the process id is always the same and so is the answer whether a script may be executed,
  -- `VpnDown` carries out the plan: it takes the device down, deletes it, and runs the down
  -- scripts that may be executed. Where it returns it has called `RunCommand` for all of these
  -- commands in this order and for no other; where it ends the process, for a beginning of
  -- them.
  pub vpn_down_refines :
      CarriedOut
        (down_commands env steady v dev)
        s
        (vpn_down env v dev s).0
        (vpn_down env v dev s).1
  vpn_down_refines = (vpn_down-Runs env s.flags.nodns steady v dev).at s refl
