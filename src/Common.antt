-- ===== src/Common.antt =====
-- `SignalHandler`, `ReadFile` and `LogEvent` (common.c), `SSHVpnTerminate` (ssh.c), and what a
-- read does when a signal comes while it waits.
pub mod Frame
pub mod Interrupt
use vpn_mgr.Base.{
  ℕ, String, ◌<>◌, Bool, true, false, not, ◌&&◌, Option, none, some, List, ltb, ◌^◌, if◌then◌else◌,
}
use vpn_mgr.Base.Chars.{atoi}
use vpn_mgr.Base.Text.{valid}
use vpn_mgr.Process.{
  Flags, Read, Signal, sigkill, sigterm, sigint, other_signal, LogLevel, log_error, log_okay,
  log_info, log_plain, Event, Env, State, fault, M, ◌>>=◌, ◌>>◌, pure, emit, get_flags, put_flags,
  ask_text, print, log, kill_process, read_file,
}

-- `pid > 1`, of the `int` that `atoi` gives
abbrev pub above_one : ℕ → Bool
above_one pid = ltb 1 pid && ltb pid (2 ^ 31)

-- The stream's "PeerPID" is asked for, which faults where the stream was closed.
unfoldable pub ssh_vpn_terminate : M (Unit {0})
ssh_vpn_terminate s = elim s.active [
  | none ↦ pure tt s
  | some a ↦
      let s' = record s { active = none } in
      if a.closed
      then (fault, s)
      else if above_one (atoi a.peer_pid)
      then emit (kill_process a.peer_pid sigkill) s'
      else pure tt s'
]

unfoldable pub set_exit : M (Unit {0})
set_exit s = pure tt (record s { flags = record s.flags { exit = true } })

unfoldable pub signal_handler : Signal → M (Unit {0})
signal_handler sigkill = set_exit >> ssh_vpn_terminate
signal_handler sigterm = set_exit >> ssh_vpn_terminate
signal_handler sigint = set_exit >> ssh_vpn_terminate
signal_handler other_signal = pure tt

-- A read during which SIGINT came runs the handler before it returns.
unfoldable pub deliver : Read → M (Unit {0})
deliver r = if r.sigint then signal_handler sigint else pure tt

module _ (env : Env) where
  unfoldable pub read_file_text : String → M String
  read_file_text path = if not (valid path) then pure "" else ask_text env (read_file path)

-- The colour codes in front of the title and behind it.
unfoldable pub prefix_of : LogLevel → String
prefix_of log_error = "~r"
prefix_of log_okay = "~g"
prefix_of log_info = "~c"
prefix_of log_plain = ""

unfoldable pub postfix_of : LogLevel → String
postfix_of log_plain = ""
postfix_of _ = "~0"

-- `LogEvent` with VPN_LOG_SYSLOG, as every caller has it: to the terminal, and to the system's
-- log.
unfoldable pub log_event : LogLevel → String → String → M (Unit {0})
log_event level title text =
    emit (print (prefix_of level <> title <> ":" <> postfix_of level <> " " <> text <> "\n"))
    >> emit (log level title text)
