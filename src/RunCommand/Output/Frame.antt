-- ===== src/RunCommand/Output/Frame.antt =====
-- What reading a command's output changes (run_command.c).
use vpn_mgr.Base.{ℕ, String, refl, Bool, true, false, List, [], ◌∷◌, arith}
use vpn_mgr.Common.{deliver}
use vpn_mgr.Common.Frame.{deliver-Keeps}
use vpn_mgr.Process.{Read, Stream, Env, M, ◌>>=◌, get_flags}
use vpn_mgr.Process.Keeps.{Keeps, keeps}
use vpn_mgr.Process.Respects.{Respects, >>=-Respects, get_flags-Respects, respects_rules}
use vpn_mgr.RunCommand.Format.{CmdFlags}
use vpn_mgr.RunCommand.Output.{
  RunResult, Output, Next, asks_password, breaks, goes_on, store_password, count_attempt,
  get_password, ask_password, keep_password, password_transact, handle_output, handle_line,
  after_output, read_loop, clean_up,
}

store_password-Keeps : (t p : String) → Respects Keeps (store_password t p)
unfolding store_password ◌>>=◌
store_password-Keeps t p = record {
  at = λ s. record {
    ran = ground arith;
    found = ground arith;
    nodns = ground arith;
    exit = λ h. ground arith;
    su = ground arith;
    sudo = λ h. ground arith;
  };
}

count_attempt-Keeps : Respects Keeps count_attempt
unfolding count_attempt ◌>>=◌
count_attempt-Keeps = record {
  at = λ s. record {
    ran = refl;
    found = refl;
    nodns = refl;
    exit = λ h. h;
    su = refl;
    sudo = λ h. h;
  };
}

get_password-Keeps : (t : String) → Respects Keeps (get_password t)
unfolding get_password ◌>>=◌
get_password-Keeps t = record {
  at = λ s. record {
    ran = refl;
    found = refl;
    nodns = refl;
    exit = λ h. h;
    su = refl;
    sudo = λ h. h;
  };
}

ruleset password_rules =
    (respects_rules, keeps, store_password-Keeps, count_attempt-Keeps, get_password-Keeps)

after_output-Keeps :
    (next : Next) (stopping : Bool) (reads : List Read)
    (again : RunResult → M (RunResult × List Read))
    → ((r : RunResult) → Respects Keeps (again r))
    → Respects Keeps (after_output next stopping reads again)
unfolding after_output
after_output-Keeps (breaks final) stopping reads again h = search (respects_rules, keeps)
after_output-Keeps (goes_on r) true reads again h = search (respects_rules, keeps)
after_output-Keeps (goes_on r) false reads again h = h r

module _ (env : Env) where
  ask_password-Keeps : (d p known : String) → Respects Keeps (ask_password env d p known)
  unfolding ask_password
  ask_password-Keeps d p known = search password_rules depth 12

  keep_password-Keeps : (t k p : String) → Respects Keeps (keep_password env t k p)
  unfolding keep_password
  keep_password-Keeps t k p = search password_rules depth 12

  password_transact-Keeps : (d p : String) (id : ℕ) → Respects Keeps (password_transact env d p id)
  unfolding password_transact
  password_transact-Keeps d p id =
      search (password_rules, ask_password-Keeps, keep_password-Keeps) depth 12

  handle_output-Keeps :
      (d p : String) (id : ℕ) (o : Output) (shown : String) (r : RunResult)
      → Respects Keeps (handle_output env d p id o shown r)
  unfolding handle_output
  handle_output-Keeps d p id asks_password shown r =
      search (respects_rules, keeps, password_transact-Keeps)
  handle_output-Keeps d p id _ shown r = search (respects_rules, keeps)

  handle_line-Keeps :
      (d p : String) (id : ℕ) (shown : String) (r : RunResult)
      → Respects Keeps (handle_line env d p id shown r)
  unfolding handle_line
  handle_line-Keeps d p id shown r = search (respects_rules, keeps, handle_output-Keeps) depth 9

  pub read_loop-Keeps :
      (d p : String) (id : ℕ) (reads : List Read) (r : RunResult)
      → Respects Keeps (read_loop env d p id reads r)
  unfolding read_loop
  read_loop-Keeps d p id [] r = search (respects_rules, keeps)
  read_loop-Keeps d p id (x ∷ reads) r = >>=-Respects keeps (deliver x) _ (deliver-Keeps x) λ _.
      >>=-Respects keeps (handle_line env d p id x.line r) _ (handle_line-Keeps d p id x.line r)
        λ next.
          >>=-Respects keeps get_flags _ (get_flags-Respects keeps)
            λ f. after_output-Keeps next f.exit reads _ (read_loop-Keeps d p id reads)

  pub clean_up-Keeps : (s : Stream) (f : CmdFlags) → Respects Keeps (clean_up env s f)
  unfolding clean_up
  clean_up-Keeps s f = search (respects_rules, keeps) depth 12
