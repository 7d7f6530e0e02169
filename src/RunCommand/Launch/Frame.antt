-- ===== src/RunCommand/Launch/Frame.antt =====
-- What opening and running a command changes (run_command.c).
use vpn_mgr.Base.{String, ◌≡◌, refl, Option, none, some, List, [], ◌∷◌}
use vpn_mgr.Common.{deliver}
use vpn_mgr.Common.Frame.{deliver-Keeps}
use vpn_mgr.Process.{Read, Stream, Env, State, ◌>>=◌, get_flags}
use vpn_mgr.Process.Keeps.{Keeps, keeps}
use vpn_mgr.Process.Respects.{
  Respects, >>=-Respects, get_flags-Respects, if-Respects, pure-Respects, respects_rules,
}
use vpn_mgr.RunCommand.Format.{CmdFlags}
use vpn_mgr.RunCommand.Launch.{
  setup_command, checked_stream, authenticate, launch, open_try, root_flags, forget_sudo, or_su,
  run_command_open, show_output, drain, record_run, finish_run, run_command,
}
use vpn_mgr.RunCommand.Output.Frame.{read_loop-Keeps, clean_up-Keeps}
use vpn_mgr.RunCommand.Output.{RunResult, run_auth_fail}

module _ (env : Env) where
  setup_command-Keeps : (c : String) (f : CmdFlags) → Respects Keeps (setup_command env c f)
  unfolding setup_command ◌>>=◌
  setup_command-Keeps c f = record { at = λ s. keeps.same s }

  checked_stream-Keeps : (s : Stream) (r : RunResult) → Respects Keeps (checked_stream env s r)
  unfolding checked_stream
  checked_stream-Keeps s run_auth_fail = search (respects_rules, keeps) depth 12
  checked_stream-Keeps s _ = search (respects_rules, keeps) depth 12

  authenticate-Keeps :
      (f : CmdFlags) (full : String) (s : Option Stream)
      → Respects Keeps (authenticate env f full s)
  unfolding authenticate
  authenticate-Keeps f full none = search (respects_rules, keeps) depth 12
  authenticate-Keeps f full (some s) =
      search (respects_rules, keeps, read_loop-Keeps, checked_stream-Keeps) depth 12

  launch-Keeps :
      (c : String) (f : CmdFlags) (full : Option String) → Respects Keeps (launch env c f full)
  unfolding launch
  launch-Keeps c f none = search (respects_rules, keeps) depth 12
  launch-Keeps c f (some full) = search (respects_rules, keeps, authenticate-Keeps) depth 12

  open_try-Keeps : (c : String) (f : CmdFlags) → Respects Keeps (open_try env c f)
  unfolding open_try
  open_try-Keeps c f = search (respects_rules, keeps, setup_command-Keeps, launch-Keeps) depth 12

  root_flags-Keeps : (f : CmdFlags) → Respects Keeps (root_flags env f)
  unfolding root_flags
  root_flags-Keeps f = search (respects_rules, keeps) depth 12

  forget_sudo-Keeps : Respects Keeps (forget_sudo env)
  unfolding forget_sudo ◌>>=◌
  forget_sudo-Keeps = record {
    at = λ s. record {
      ran = refl;
      found = refl;
      nodns = refl;
      exit = λ h. h;
      su = refl;
      sudo = λ h. refl;
    };
  }

  or_su-Keeps : (c : String) (f : CmdFlags) (s : Option Stream) → Respects Keeps (or_su env c f s)
  unfolding or_su
  or_su-Keeps c f none = search (respects_rules, keeps, forget_sudo-Keeps, open_try-Keeps) depth 12
  or_su-Keeps c f (some s) = search (respects_rules, keeps) depth 12

  -- Whatever `RunCommandOpen` does, also where it ends the process: no command line is added to
  -- the record of calls of `RunCommand`, the programs that were found stay the same, FLAG_EXIT
  -- stays set once it is, FLAG_SU and FLAG_NODNS do not change, and FLAG_SUDO stays clear once
  -- it is.
  pub run_command_open-Keeps :
      (c : String) (f : CmdFlags) → Respects Keeps (run_command_open env c f)
  unfolding run_command_open
  run_command_open-Keeps c f =
      search (respects_rules, keeps, root_flags-Keeps, open_try-Keeps, or_su-Keeps) depth 12

pub show_output-Keeps : (l : String) → Respects Keeps (show_output l)
unfolding show_output
show_output-Keeps l = search (respects_rules, keeps) depth 12

drain-Keeps : (reads : List Read) → Respects Keeps (drain reads)
unfolding drain
drain-Keeps [] = search (respects_rules, keeps) depth 12
drain-Keeps (r ∷ reads) = >>=-Respects keeps (deliver r) _ (deliver-Keeps r) λ _.
    >>=-Respects keeps (show_output r.line) _ (show_output-Keeps r.line) λ _.
      >>=-Respects keeps get_flags _ (get_flags-Respects keeps)
        λ g. if-Respects keeps g.exit _ _ (pure-Respects keeps tt) (drain-Keeps reads)

module _ (env : Env) where
  pub finish_run-Keeps : (f : CmdFlags) (s : Option Stream) → Respects Keeps (finish_run env f s)
  unfolding finish_run
  finish_run-Keeps f none = search (respects_rules, keeps) depth 12
  finish_run-Keeps f (some s) = search (respects_rules, keeps, drain-Keeps, clean_up-Keeps) depth 12

  -- A call of `RunCommand` adds its command line, and no other, to the record of those that
  -- were handed to it, also where the call ends the process.
  pub ran-run_command :
      (c : String) (f : CmdFlags) (s : State) → (run_command env c f s).1.ran ≡ c ∷ s.ran
  unfolding run_command record_run ◌>>=◌
  ran-run_command c f s =
      let t = record s { ran = c ∷ s.ran } in
      let run =
        >>=-Respects keeps (run_command_open env c f) _ (run_command_open-Keeps env c f)
          (finish_run-Keeps f) in
      (run.at t).ran
