-- ===== src/CommandLine/Faults.antt =====
-- The command lines at which `ParseCommandLine` faults (command_line.c).
use vpn_mgr.Base.{ℕ, String, ◌≡◌, refl, ap, true, false, List, [], ◌∷◌, ◌++◌}
use vpn_mgr.Base.Chars.{case_eq, atoi}
use vpn_mgr.CommandLine.Kinds.{
  Kind, text_option, number_option, duration_option, vpn_flag, global_flag, unknown_option,
  option_kind,
}
use vpn_mgr.CommandLine.{next, after, accepts, last_option, parse_options}
use vpn_mgr.Process.Ends.{Ends, Ends-map}
use vpn_mgr.Process.{Env, State, Res}
use vpn_mgr.Vpn.{Vpn}

-- The last argument is an option that takes a number.
pub record Dangling (args : List String) : Type 0 where
  pub front : List String
  pub arg : String
  pub put : Vpn → ℕ → Vpn
  pub split : args ≡ front ++ (arg ∷ [])
  pub known : option_kind arg ≡ number_option put

-- A server is asked for, and the argument behind that is not accepted as its URL.
pub record Nameless (env : Env) (args : List String) : Type 0 where
  pub asked : case_eq (next args) "server" ≡ true
  pub refused : accepts env (next args) (next (after args)) ≡ false

-- The command lines at fault.
pub data Faulty (env : Env) (args : List String) : Type 0 where
  dangling : Dangling args → Faulty env args
  nameless : Nameless env args → Faulty env args

pub behind : (a : String) (args : List String) → Dangling args → Dangling (a ∷ args)
behind a args d = record {
  front = a ∷ d.front;
  arg = d.arg;
  put = d.put;
  split = ap (λ xs. a ∷ xs) d.split;
  known = d.known;
}

module _ (env : Env) where
  last_option-Ends :
      (arg : String) (k : Kind) (v : Vpn) (s : State)
      → option_kind arg ≡ k
      → Ends (Dangling (arg ∷ [])) (last_option env k v s).0
  unfolding last_option
  last_option-Ends arg (text_option put) v s e = tt
  last_option-Ends arg (number_option put) v s e = record {
    front = [];
    arg = arg;
    put = put;
    split = refl;
    known = e;
  }
  last_option-Ends arg (duration_option put) v s e = tt
  last_option-Ends arg (vpn_flag put) v s e = tt
  last_option-Ends arg (global_flag put) v s e = tt
  last_option-Ends arg unknown_option v s e = tt

  one :
      (arg : String) (rest : List String) (r : Res Vpn)
      → Ends (Dangling rest) r
      → Ends (Dangling (arg ∷ rest)) r
  one arg rest r h = Ends-map _ _ r (behind arg rest) h

  two :
      (arg value : String) (rest : List String) (r : Res Vpn)
      → Ends (Dangling rest) r
      → Ends (Dangling (arg ∷ value ∷ rest)) r
  two arg value rest r h = one arg (value ∷ rest) r (one value rest r h)

  pub parse_options-Ends :
      (args : List String) (v : Vpn) (s : State)
      → Ends (Dangling args) (parse_options env args v s).0
  unfolding parse_options
  parse_options-Ends [] v s = tt
  parse_options-Ends (arg ∷ []) v s = last_option-Ends arg (option_kind arg) v s refl
  parse_options-Ends (arg ∷ value ∷ rest) v s =
      elim (option_kind arg)
          as (λ k.
            option_kind arg ≡ k
            → Ends (Dangling (arg ∷ value ∷ rest)) (parse_options env (arg ∷ value ∷ rest) v s).0) [
              | text_option put ↦ λ e.
                  rw (e, parse_options)
                    (two arg value rest _ (parse_options-Ends rest (put v value) s))
              | number_option put ↦ λ e.
                  rw (e, parse_options)
                    (two arg value rest _ (parse_options-Ends rest (put v (atoi value)) s))
              | duration_option put ↦ λ e.
                  rw (e, parse_options)
                    (two arg value rest _
                      (parse_options-Ends rest (put v (env.parse_duration value)) s))
              | vpn_flag put ↦ λ e.
                  rw (e, parse_options)
                    (one arg (value ∷ rest) _ (parse_options-Ends (value ∷ rest) (put v) s))
              | global_flag put ↦ λ e.
                  rw (e, parse_options)
                    (one arg (value ∷ rest) _
                      (parse_options-Ends (value ∷ rest) v (record s { flags = put s.flags })))
              | unknown_option ↦ λ e.
                  rw (e, parse_options)
                    (one arg (value ∷ rest) _ (parse_options-Ends (value ∷ rest) v s))
            ]
        refl
