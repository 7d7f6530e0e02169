-- ===== src/RunCommand/Output.antt =====
-- `RunCommandPasswordTransact`, `RunCommandReadLoop` and `RunCommandCleanUp` (run_command.c).
pub mod Frame
pub mod Verdict
pub mod Password
use vpn_mgr.Base.{
  ℕ, String, ◌<>◌, Bool, true, false, not, ◌&&◌, ◌||◌, List, [], ◌∷◌, ◌==◌, ◌+◌, ◌/◌, ◌%◌, ◌^◌, ltb,
  eqb, if◌then◌else◌,
}
use vpn_mgr.Base.Chars.{atoi, show}
use vpn_mgr.Base.Text.{valid, begins}
use vpn_mgr.Common.{deliver}
use vpn_mgr.Process.{
  Flags, Read, Stream, Env, State, M, ◌>>=◌, ◌>>◌, pure, emit, get_flags, ask_text, ask_number,
  print, prompt, write, set_value, kill_group, sigterm, wait_pid,
}
use vpn_mgr.RunCommand.Format.{CmdFlags, get_var, set_var}

-- The RUN_CMD_ results.
pub data RunResult : Type 0 where
  run_begin run_okay run_unknown run_auth_fail run_fail run_abort : RunResult

abbrev pub settled : RunResult → Bool
settled run_begin = false
settled run_okay = false
settled _ = true

unfoldable pub store_password : String → String → M RunResult
store_password type password s =
    if valid password
    then pure run_okay (record s { passwords = set_var type password s.passwords })
    else pure run_abort s

unfoldable pub count_attempt : M (Unit {0})
count_attempt s = pure tt (record s { attempts = s.attempts + 1 })

unfoldable pub get_password : String → M String
get_password type s = pure (get_var type s.passwords) s

module _ (env : Env) where
  unfoldable pub ask_password : String → String → String → M String
  ask_password domain program known = if valid known then pure known else do
    emit (print "\n")
    password ← ask_text env (prompt ("~ePassword for ~y" <> domain <> "~0 ~e" <> program <> ":~0 "))
    emit (print "\n")
    pure password

  unfoldable pub keep_password : String → String → String → M RunResult
  keep_password type known password =
      if valid known then pure run_okay else store_password type password

  -- A password that is known is sent again. One that is not is asked for, and an empty answer
  -- aborts; it is sent all the same.
  unfoldable pub password_transact : String → String → ℕ → M RunResult
  password_transact domain program id = do
    let type = domain <> " " <> program
    known ← get_password type
    password ← ask_password domain program known
    result ← keep_password type known password
    count_attempt
    f ← get_flags
    (if f.debug then emit (print ("SEND PASSWORD: [" <> password <> "]\n")) else pure tt)
    emit (write id password)
    emit (write id "\n")
    pure result

-- What a line of output means to the loop.
pub data Output : Type 0 where
  asks_password refused started finished blank text : Output

-- The chain of comparisons in `RunCommandReadLoop`, on the stripped line.
unfoldable pub output_of : String → Output
output_of check =
    if begins check "[sudo] password for"
    then asks_password
    else if begins check "Password:"
    then asks_password
    else if begins check "Sorry"
    then refused
    else if check == "Authentication failure"
    then refused
    else if check == "vpn-mgr-cmd-run"
    then started
    else if check == "vpn-mgr-sudo-done"
    then finished
    else if check == "vpn-mgr-su-done"
    then finished
    else if valid check
    then text
    else blank

-- Whether the loop breaks, with the result so far.
pub data Next : Type 0 where
  breaks goes_on : RunResult → Next

abbrev pub unless_settled : RunResult → Next
unless_settled r = if settled r then breaks r else goes_on r

-- The ends of the loop: a break, and `FLAG_EXIT`. Otherwise it goes on.
unfoldable pub after_output :
    Next → Bool → List Read → (RunResult → M (RunResult × List Read)) → M (RunResult × List Read)
after_output (breaks final) stopping reads again = pure (final, reads)
after_output (goes_on so_far) true reads again = pure (so_far, reads)
after_output (goes_on so_far) false reads again = again so_far

module _ (env : Env) (domain program : String) (id : ℕ) where
  unfoldable pub handle_output : Output → String → RunResult → M Next
  handle_output asks_password shown result = do
    r ← password_transact env domain program id
    pure (unless_settled r)
  handle_output refused shown result = pure (breaks run_auth_fail)
  handle_output started shown result = pure (breaks run_okay)
  handle_output finished shown result = pure (breaks result)
  handle_output text shown result = emit (print ("   " <> shown)) >> pure (unless_settled result)
  handle_output blank shown result = pure (unless_settled result)

  unfoldable pub handle_line : String → RunResult → M Next
  handle_line shown result = if not (valid shown) then pure (goes_on result) else do
    let check = env.trim_right (env.trim_left shown)
    f ← get_flags
    (if f.debug then emit (print ("Command Output: " <> check <> "\n")) else pure tt)
    handle_output (output_of check) shown result

  -- `RunCommandReadLoop`, over what the stream gives until it ends. The result comes with what
  -- is left to be read.
  unfoldable pub read_loop : List Read → RunResult → M (RunResult × List Read)
  read_loop [] result = pure (result, [])
  read_loop (r ∷ reads) result = do
    deliver r
    next ← handle_line r.line result
    f ← get_flags
    after_output next f.exit reads (λ so_far. read_loop reads so_far)

-- A process that died by a status other than 0 has failed.
abbrev pub status_result : ℕ → RunResult
status_result status = if eqb status 0 then run_okay else run_fail

module _ (env : Env) where
  -- `pid > -1` and `CMD_KILL` send SIGTERM to the process group.
  unfoldable pub clean_up : Stream → CmdFlags → M RunResult
  clean_up s f = if not (valid s.peer_pid) then pure run_okay else do
    (if ltb (atoi s.peer_pid) (2 ^ 31) && f.kill
        then emit (kill_group s.peer_pid sigterm)
        else pure tt)
    status ← ask_number env (wait_pid s.peer_pid)
    emit (set_value s.id "ExitStatus" (show (status / 256 % 256)))
    pure (status_result status)
