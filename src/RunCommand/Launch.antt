-- ===== src/RunCommand/Launch.antt =====
-- `RunCommandOpenTry`, `RunCommandOpen` and `RunCommand` (run_command.c).
pub mod Frame
pub mod Root
use vpn_mgr.Base.{
  ℕ, String, ◌<>◌, Bool, true, false, not, ◌&&◌, ◌||◌, Option, none, some, List, [], ◌∷◌, eqb,
  if◌then◌else◌,
}
use vpn_mgr.Base.Text.{valid, begins}
use vpn_mgr.Common.{deliver}
use vpn_mgr.Process.{
  Flags, Read, Stream, Env, State, M, ◌>>=◌, ◌>>◌, pure, exit_with, emit, get_flags, put_flags,
  ask_number, ask_stream, print, close, open_stream, get_uid, set_env,
}
use vpn_mgr.RunCommand.Format.{CmdFlags, run_cmd_setup}
use vpn_mgr.RunCommand.Output.{
  RunResult, run_begin, run_okay, run_unknown, run_auth_fail, run_fail, run_abort, read_loop,
  clean_up,
}

module _ (env : Env) where
  unfoldable pub setup_command : String → CmdFlags → M (Option String)
  setup_command cmd f s = pure (run_cmd_setup env s.found cmd f) s

  -- The `switch` on the result of the read loop: the stream, unless the user was refused.
  unfoldable pub checked_stream : Stream → RunResult → M (Option Stream)
  checked_stream s run_auth_fail =
      emit (print "~r~eERROR: Authentication Failure~0\n") >> emit (close s.id) >> pure none
  checked_stream s run_abort =
      emit (print "~r~eERROR: User Aborted command. Exiting...~0\n")
      >> emit (close s.id)
      >> exit_with 1
  checked_stream s _ = pure (some s)

  unfoldable pub authenticate : CmdFlags → String → Option Stream → M (Option Stream)
  authenticate f full none =
      emit (print ("~r~eERROR: Failed to run command: [" <> full <> "]~0\n")) >> pure none
  authenticate f full (some s) =
      if f.sudo || f.su
      then read_loop env "Local" "su/sudo" s.id s.reads run_begin
        >>= (λ (result, reads). checked_stream (record s { reads = reads }) result)
      else pure (some s)

  unfoldable pub launch : String → CmdFlags → Option String → M (Option Stream)
  launch cmd f none =
      emit (print ("~r~eERROR: cmd '" <> (env.get_token cmd " ").0 <> "' unknown~0\n")) >> pure none
  launch cmd f (some full) =
      if not (valid full)
      then emit (print ("~r~eERROR: cmd '" <> (env.get_token cmd " ").0 <> "' unknown~0\n"))
        >> pure none
      else do
        g ← get_flags
        (if f.verbose || (g.verbose || g.debug)
            then emit (print ("~yRUN CMD:~0 [" <> full <> "]\n"))
            else pure tt)
        s ←
            ask_stream env
              (open_stream full ("rw pty setsid" <> (if f.no_stderr then "" else " +stderr")))
        authenticate f full s

  -- Root needs neither `sudo` nor `su`.
  abbrev pub as_user : ℕ → CmdFlags → CmdFlags
  as_user uid f = if eqb uid 0 then record f { su = false; sudo = false } else f

  unfoldable pub open_try : String → CmdFlags → M (Option Stream)
  open_try cmd flags = do
    uid ← ask_number env get_uid
    full ← setup_command cmd (as_user uid flags)
    launch cmd (as_user uid flags) full

  -- CMD_ASROOT of a user who is not root asks for what `GlobalFlags` allows.
  unfoldable pub root_flags : CmdFlags → M CmdFlags
  root_flags f = if not f.asroot then pure f else do
    uid ← ask_number env get_uid
    g ← get_flags
    pure (
        if eqb uid 0
        then f
        else record f { su = if g.su then true else f.su; sudo = if g.sudo then true else f.sudo })

  -- After a failure of `sudo` the program never tries it again.
  unfoldable pub forget_sudo : M (Unit {0})
  forget_sudo = do
    emit (print "~y~e'sudo' invocation failed, attempting 'su'~0\n")
    g ← get_flags
    put_flags (record g { sudo = false })

  unfoldable pub or_su : String → CmdFlags → Option Stream → M (Option Stream)
  or_su cmd f (some s) = pure (some s)
  or_su cmd f none =
      if f.sudo then forget_sudo >> open_try cmd (record f { sudo = false }) else open_try cmd f

  unfoldable pub run_command_open : String → CmdFlags → M (Option Stream)
  run_command_open cmd flags = do
    f ← root_flags flags
    emit (set_env "LC_ALL" "C")
    emit (set_env "LANG" "C")
    s ← (if f.sudo then open_try cmd f else pure none)
    or_su cmd f s

-- The output of a command, as it is shown with -verbose.
unfoldable pub show_output : String → M (Unit {0})
show_output line = do
  g ← get_flags
  if g.verbose && not (begins line "vpn-mgr-") then emit (print line) else pure tt

unfoldable pub drain : List Read → M (Unit {0})
drain [] = pure tt
drain (r ∷ reads) = do
  deliver r
  show_output r.line
  g ← get_flags
  if g.exit then pure tt else drain reads

unfoldable pub record_run : String → M (Unit {0})
record_run cmd s = pure tt (record s { ran = cmd ∷ s.ran })

module _ (env : Env) where
  unfoldable pub finish_run : CmdFlags → Option Stream → M RunResult
  finish_run f none = exit_with 1
  finish_run f (some s) = do
    drain s.reads
    result ← clean_up env s f
    emit (close s.id)
    pure result

  -- Ends the process if the command cannot be started.
  unfoldable pub run_command : String → CmdFlags → M RunResult
  run_command cmd flags = do record_run cmd; s ← run_command_open env cmd flags; finish_run flags s
