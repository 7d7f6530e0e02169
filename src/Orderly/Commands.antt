-- ===== src/Orderly/Commands.antt =====
-- Signals, the log, and running a command (common.c, run_command.c).
use vpn_mgr.Base.{
  ℕ, String, ◌≡◌, refl, Bool-cases, inl, inr, Bool, true, false, Option, none, some, List, [], ◌∷◌,
  arith, if◌then◌else◌,
}
use vpn_mgr.Base.Text.{valid}
use vpn_mgr.Base.Chars.{atoi}
use vpn_mgr.Common.{
  above_one, ssh_vpn_terminate, set_exit, signal_handler, deliver, read_file_text, log_event,
}
use vpn_mgr.Process.Orderly.{
  EndsWell, Stale, Outcome-ret, Orderly, Ordered-trace, >>=-Orderly, if-Orderly, pure-Orderly,
  get_flags-Orderly, orderly_rules,
}
use vpn_mgr.Process.{
  Env, State, ActiveStream, M, Read, Signal, sigkill, sigterm, sigint, other_signal, Stream,
  LogLevel, ◌>>=◌, get_flags,
}
use vpn_mgr.RunCommand.Format.{CmdFlags}
use vpn_mgr.RunCommand.Launch.{
  setup_command, checked_stream, authenticate, launch, open_try, root_flags, forget_sudo, or_su,
  run_command_open, show_output, drain, record_run, finish_run, run_command,
}
use vpn_mgr.RunCommand.Output.{
  RunResult, run_okay, run_abort, run_auth_fail, Output, Next, asks_password, breaks, goes_on,
  store_password, count_attempt, get_password, ask_password, keep_password, password_transact,
  handle_output, handle_line, after_output, read_loop, clean_up,
}

set_exit-Orderly : Orderly set_exit
unfolding set_exit ◌>>=◌
set_exit-Orderly = record {
  at = λ s. (
    tt,
    record {
      found = refl;
      nodns = refl;
      debug = refl;
      verbose = refl;
      exit = λ h. refl;
      ran = ([], refl);
    },
  );
}

terminated :
    (s : State) (a : Option ActiveStream)
    → s.active ≡ a
    → EndsWell (ssh_vpn_terminate s).0 (ssh_vpn_terminate s).1
unfolding ssh_vpn_terminate ◌>>=◌
terminated s none e = rw e tt
terminated s (some a) e = elim (Bool-cases a.closed) [
  | inl closed ↦ rw (e, closed) refl
  | inr live ↦ elim (Bool-cases (above_one (atoi a.peer_pid))) [
    | inl above ↦ rw (e, live, above) tt
    | inr other ↦ rw (e, live, other) tt
  ]
]

ssh_vpn_terminate-Orderly : Orderly ssh_vpn_terminate
unfolding ssh_vpn_terminate ◌>>=◌
ssh_vpn_terminate-Orderly = record {
  at = λ s. (
    terminated s s.active refl,
    record {
      found = ground arith;
      nodns = ground arith;
      debug = ground arith;
      verbose = ground arith;
      exit = λ h. ground arith;
      ran = ([], ground arith);
    },
  );
}

signal_handler-Orderly : (g : Signal) → Orderly (signal_handler g)
unfolding signal_handler
signal_handler-Orderly sigkill = search (orderly_rules, set_exit-Orderly, ssh_vpn_terminate-Orderly)
signal_handler-Orderly sigterm = search (orderly_rules, set_exit-Orderly, ssh_vpn_terminate-Orderly)
signal_handler-Orderly sigint = search (orderly_rules, set_exit-Orderly, ssh_vpn_terminate-Orderly)
signal_handler-Orderly other_signal = search orderly_rules

pub deliver-Orderly : (r : Read) → Orderly (deliver r)
unfolding deliver
deliver-Orderly r = search (orderly_rules, signal_handler-Orderly)

pub log_event-Orderly : (l : LogLevel) (title text : String) → Orderly (log_event l title text)
unfolding log_event
log_event-Orderly l title text = search orderly_rules depth 12

store_password-Orderly : (t p : String) → Orderly (store_password t p)
unfolding store_password ◌>>=◌
store_password-Orderly t p = record {
  at = λ s. (
    Outcome-ret Stale (store_password t p s).0 (store_password t p s).1
        (if valid p then run_okay else run_abort) (ground arith),
    record {
      found = ground arith;
      nodns = ground arith;
      debug = ground arith;
      verbose = ground arith;
      exit = λ h. ground arith;
      ran = ([], ground arith);
    },
  );
}

count_attempt-Orderly : Orderly count_attempt
unfolding count_attempt ◌>>=◌
count_attempt-Orderly = record {
  at = λ s. (
    tt,
    record {
      found = refl;
      nodns = refl;
      debug = refl;
      verbose = refl;
      exit = λ h. h;
      ran = ([], refl);
    },
  );
}

get_password-Orderly : (t : String) → Orderly (get_password t)
unfolding get_password ◌>>=◌
get_password-Orderly t = record { at = λ s. (tt, Ordered-trace s s.trace) }

ruleset password_rules =
    (orderly_rules, store_password-Orderly, count_attempt-Orderly, get_password-Orderly)

after_output-Orderly :
    (next : Next) (stopping : Bool) (reads : List Read)
    (again : RunResult → M (RunResult × List Read))
    → ((r : RunResult) → Orderly (again r))
    → Orderly (after_output next stopping reads again)
unfolding after_output
after_output-Orderly (breaks final) stopping reads again h = search orderly_rules
after_output-Orderly (goes_on r) true reads again h = search orderly_rules
after_output-Orderly (goes_on r) false reads again h = h r

show_output-Orderly : (l : String) → Orderly (show_output l)
unfolding show_output
show_output-Orderly l = search orderly_rules depth 12

drain-Orderly : (reads : List Read) → Orderly (drain reads)
unfolding drain
drain-Orderly [] = search orderly_rules depth 12
drain-Orderly (r ∷ reads) = >>=-Orderly (deliver r) _ (deliver-Orderly r) λ _.
    >>=-Orderly (show_output r.line) _ (show_output-Orderly r.line) λ _.
      >>=-Orderly get_flags _ get_flags-Orderly
        λ g. if-Orderly g.exit _ _ (pure-Orderly tt) (drain-Orderly reads)

record_run-Orderly : (c : String) → Orderly (record_run c)
unfolding record_run ◌>>=◌
record_run-Orderly c = record {
  at = λ s. (
    tt,
    record {
      found = refl;
      nodns = refl;
      debug = refl;
      verbose = refl;
      exit = λ h. h;
      ran = (c ∷ [], refl);
    },
  );
}

module _ (env : Env) where
  pub read_file_text-Orderly : (path : String) → Orderly (read_file_text env path)
  unfolding read_file_text
  read_file_text-Orderly path = search orderly_rules depth 12

  ask_password-Orderly : (d p known : String) → Orderly (ask_password env d p known)
  unfolding ask_password
  ask_password-Orderly d p known = search password_rules depth 12

  keep_password-Orderly : (t k p : String) → Orderly (keep_password env t k p)
  unfolding keep_password
  keep_password-Orderly t k p = search password_rules depth 12

  password_transact-Orderly : (d p : String) (id : ℕ) → Orderly (password_transact env d p id)
  unfolding password_transact
  password_transact-Orderly d p id =
      search (password_rules, ask_password-Orderly, keep_password-Orderly) depth 12

  handle_output-Orderly :
      (d p : String) (id : ℕ) (o : Output) (shown : String) (r : RunResult)
      → Orderly (handle_output env d p id o shown r)
  unfolding handle_output
  handle_output-Orderly d p id asks_password shown r =
      search (orderly_rules, password_transact-Orderly)
  handle_output-Orderly d p id _ shown r = search orderly_rules

  handle_line-Orderly :
      (d p : String) (id : ℕ) (shown : String) (r : RunResult)
      → Orderly (handle_line env d p id shown r)
  unfolding handle_line
  handle_line-Orderly d p id shown r = search (orderly_rules, handle_output-Orderly) depth 9

  pub read_loop-Orderly :
      (d p : String) (id : ℕ) (reads : List Read) (r : RunResult)
      → Orderly (read_loop env d p id reads r)
  unfolding read_loop
  read_loop-Orderly d p id [] r = search orderly_rules
  read_loop-Orderly d p id (x ∷ reads) r = >>=-Orderly (deliver x) _ (deliver-Orderly x) λ _.
      >>=-Orderly (handle_line env d p id x.line r) _ (handle_line-Orderly d p id x.line r) λ next.
        >>=-Orderly get_flags _ get_flags-Orderly
          λ f. after_output-Orderly next f.exit reads _ (read_loop-Orderly d p id reads)

  pub clean_up-Orderly : (s : Stream) (f : CmdFlags) → Orderly (clean_up env s f)
  unfolding clean_up
  clean_up-Orderly s f = search orderly_rules depth 12

  setup_command-Orderly : (c : String) (f : CmdFlags) → Orderly (setup_command env c f)
  unfolding setup_command ◌>>=◌
  setup_command-Orderly c f = record { at = λ s. (tt, Ordered-trace s s.trace) }

  checked_stream-Orderly : (s : Stream) (r : RunResult) → Orderly (checked_stream env s r)
  unfolding checked_stream
  checked_stream-Orderly s run_auth_fail = search orderly_rules depth 12
  checked_stream-Orderly s _ = search orderly_rules depth 12

  authenticate-Orderly :
      (f : CmdFlags) (full : String) (s : Option Stream) → Orderly (authenticate env f full s)
  unfolding authenticate
  authenticate-Orderly f full none = search orderly_rules depth 12
  authenticate-Orderly f full (some s) =
      search (orderly_rules, read_loop-Orderly, checked_stream-Orderly) depth 12

  launch-Orderly :
      (c : String) (f : CmdFlags) (full : Option String) → Orderly (launch env c f full)
  unfolding launch
  launch-Orderly c f none = search orderly_rules depth 12
  launch-Orderly c f (some full) = search (orderly_rules, authenticate-Orderly) depth 12

  open_try-Orderly : (c : String) (f : CmdFlags) → Orderly (open_try env c f)
  unfolding open_try
  open_try-Orderly c f = search (orderly_rules, setup_command-Orderly, launch-Orderly) depth 12

  root_flags-Orderly : (f : CmdFlags) → Orderly (root_flags env f)
  unfolding root_flags
  root_flags-Orderly f = search orderly_rules depth 12

  forget_sudo-Orderly : Orderly (forget_sudo env)
  unfolding forget_sudo ◌>>=◌
  forget_sudo-Orderly = record {
    at = λ s. (
      tt,
      record {
        found = refl;
        nodns = refl;
        debug = refl;
        verbose = refl;
        exit = λ h. h;
        ran = ([], refl);
      },
    );
  }

  or_su-Orderly : (c : String) (f : CmdFlags) (s : Option Stream) → Orderly (or_su env c f s)
  unfolding or_su
  or_su-Orderly c f none = search (orderly_rules, forget_sudo-Orderly, open_try-Orderly) depth 12
  or_su-Orderly c f (some s) = search orderly_rules depth 12

  pub run_command_open-Orderly : (c : String) (f : CmdFlags) → Orderly (run_command_open env c f)
  unfolding run_command_open
  run_command_open-Orderly c f =
      search (orderly_rules, root_flags-Orderly, open_try-Orderly, or_su-Orderly) depth 12

  finish_run-Orderly : (f : CmdFlags) (s : Option Stream) → Orderly (finish_run env f s)
  unfolding finish_run
  finish_run-Orderly f none = search orderly_rules depth 12
  finish_run-Orderly f (some s) = search (orderly_rules, drain-Orderly, clean_up-Orderly) depth 12

  pub run_command-Orderly : (c : String) (f : CmdFlags) → Orderly (run_command env c f)
  unfolding run_command
  run_command-Orderly c f =
      search (orderly_rules, record_run-Orderly, run_command_open-Orderly, finish_run-Orderly) depth
        12
