-- ===== src/Wireguard/Plan.antt =====
-- Which commands a Wireguard link runs, once it is known how it is to be set up (wireguard.c).
use vpn_mgr.Base.{String, ◌<>◌, ◌≡◌, refl, ◌∙◌, Bool, List, [], ◌∷◌, ◌++◌, if◌then◌else◌}
use vpn_mgr.Common.Frame.{deliver-Keeps}
use vpn_mgr.Common.{deliver}
use vpn_mgr.Process.Keeps.{Keeps, keeps}
use vpn_mgr.Process.Respects.{
  Respects, pure-Respects, if-Respects, get_flags-Respects, emit-Respects, >>=-Respects,
}
use vpn_mgr.Process.{Env, Read, State, Res, ret, stop, fault, continue, M, ◌>>=◌, emit, get_flags}
use vpn_mgr.RunCommand.Format.{cmd_asroot}
use vpn_mgr.RunCommand.Launch.{run_command}
use vpn_mgr.RunCommand.Output.{RunResult}
use vpn_mgr.RunCommand.Runs.{
  CarriedOut, Runs, chain, quiet-Runs, if-Runs, >>=-Runs, then_quiet, run_command-Runs,
}
use vpn_mgr.TunTap.Gone.{tun_shutdown-Runs}
use vpn_mgr.TunTap.{is_okay, tun_shutdown}
use vpn_mgr.UpDown.Commands.{Steady, up_commands}
use vpn_mgr.UpDown.Plan.{vpn_up-Runs}
use vpn_mgr.UpDown.{vpn_up}
use vpn_mgr.Vpn.{Vpn}
use vpn_mgr.Wireguard.TakenDown.{linked}
use vpn_mgr.Wireguard.{wireguard_format_command, wait_for_user, run_link}

module _ (env : Env) where
  wait_for_user-Keeps : (reads : List Read) → Respects Keeps (wait_for_user env reads)
  unfolding wait_for_user
  wait_for_user-Keeps [] = pure-Respects keeps tt
  wait_for_user-Keeps (r ∷ reads) = >>=-Respects keeps (deliver r) _ (deliver-Keeps r) λ _.
      >>=-Respects keeps get_flags _ (get_flags-Respects keeps)
        λ f. if-Respects keeps f.exit _ _ (pure-Respects keeps tt) (wait_for_user-Keeps reads)

module _ (env : Env) (steady : Steady env) (v : Vpn) (dev : String) where
  -- What follows the command `wg`: the link comes up and goes down again, with its device.
  abbrev pub link_commands : Bool → List String
  link_commands nodns =
      up_commands env steady nodns v dev
      ++ (("ip link set dev " <> dev <> " down ") ∷ ("ip link delete dev " <> dev) ∷ [])

  -- The command `wg`, and what follows it by its result.
  abbrev pub after_wg : Bool → String → Res RunResult → List String
  after_wg nodns command (ret status) =
      command ∷ (if is_okay status then link_commands nodns else [])
  after_wg nodns command (stop c) = command ∷ []
  after_wg nodns command fault = command ∷ []

  -- What the state leads to in which `WireguardFormatCommand` gave a command.
  abbrev pub run_commands : Res String → State → List String
  run_commands (ret command) t =
      after_wg t.flags.nodns command (run_command env command cmd_asroot t).0
  run_commands (stop c) t = []
  run_commands fault t = []

  module _ (terminal : List Read) where
    linked-Runs :
        (nodns okay : Bool)
        → Runs nodns (linked env v dev terminal okay) (if okay then link_commands nodns else [])
    linked-Runs nodns okay =
        if-Runs nodns okay _ _ (link_commands nodns) []
          (>>=-Runs nodns _ (λ _. tun_shutdown env dev) (up_commands env steady nodns v dev) _
            (then_quiet nodns _ (emit _) _
              (then_quiet nodns (vpn_up env v dev) (wait_for_user env terminal) _
                (vpn_up-Runs env nodns steady v dev) (wait_for_user-Keeps env terminal))
              (emit-Respects keeps _))
            (λ _. tun_shutdown-Runs env nodns dev))
          (quiet-Runs nodns (emit _) (emit-Respects keeps _))

    abbrev after_result : RunResult → M (Unit {0})
    after_result status = linked env v dev terminal (is_okay status)

    from_result :
        (nodns : Bool) (command : String) (q : Res RunResult) (s t : State)
        → s.flags.nodns ≡ nodns
        → CarriedOut (command ∷ []) s q t
        → CarriedOut
            (after_wg nodns command q)
            s
            (continue q after_result t).0
            (continue q after_result t).1
    from_result nodns command (ret status) s t n h =
        chain (command ∷ []) (if is_okay status then link_commands nodns else [])
          (after_result status t).0 s t (after_result status t).1 h
          ((linked-Runs nodns (is_okay status)).at t (h.nodns ∙ n))
    from_result nodns command (stop c) s t n h = h
    from_result nodns command fault s t n h = h

    abbrev with_command : String → M (Unit {0})
    with_command command = run_command env command cmd_asroot >>= after_result

    from_command :
        (r : Res String) (t : State)
        → CarriedOut
            (run_commands r t)
            t
            (continue r with_command t).0
            (continue r with_command t).1
    unfolding ◌>>=◌
    from_command (ret command) t =
        from_result t.flags.nodns command (run_command env command cmd_asroot t).0 t
          (run_command env command cmd_asroot t).1 refl
          ((run_command-Runs env t.flags.nodns command cmd_asroot).at t refl)
    from_command (stop c) t = ([], [], refl, refl)
    from_command fault t = ([], [], refl, refl)

    -- If the process id is always the same and so is the answer whether a script may be executed, a
    -- Wireguard link, on its device, carries out a plan from the state in which
    -- `WireguardFormatCommand` gave the command: this command; and where its result is RUN_CMD_OKAY,
    -- those with which `VpnUp` brings the link up and then those that take the device down and delete
    -- it, else no other. Where the link returns it has called `RunCommand` for all of the plan's
    -- commands in this order and for no other; where it ends the process, for a beginning of them.
    pub run_link_refines :
        (s : State)
        → CarriedOut
            (run_commands
              (wireguard_format_command env v dev s).0
              (wireguard_format_command env v dev s).1)
            (wireguard_format_command env v dev s).1
            (run_link env v dev terminal s).0
            (run_link env v dev terminal s).1
    unfolding run_link ◌>>=◌
    run_link_refines s =
        from_command (wireguard_format_command env v dev s).0
          (wireguard_format_command env v dev s).1
