-- ===== src/CommandLine.antt =====
-- `ParseCommandLine`, `CommandLineValid` and `IsServerURL` (command_line.c). The command line is
-- the list of arguments behind the program's name. `CommandLineNext` takes the next one, and is
-- NULL at the end, which `CopyStr` stores as the empty text.
pub mod Kinds
pub mod Laws
pub mod Documented
pub mod Faults
pub mod Ends
use vpn_mgr.Base.{
  ℕ, String, ◌<>◌, Bool, true, false, not, ◌&&◌, ◌||◌, Option, none, some, List, [], ◌∷◌, ◌==◌,
  if◌then◌else◌,
}
use vpn_mgr.Base.Chars.{case_eq, atoi}
use vpn_mgr.Base.Text.{valid, begins}
use vpn_mgr.Process.{Flags, Env, State, M, ret, fault, ◌>>=◌, ◌>>◌, pure, emit, print}
use vpn_mgr.Vpn.{Vpn, vpn_ctx_create}
use vpn_mgr.CommandLine.Kinds.{
  Kind, text_option, number_option, duration_option, vpn_flag, global_flag, unknown_option,
  option_kind,
}

-- The prefixes are tested one after the other.
unfoldable pub is_server_url : String → Bool
is_server_url server =
    begins server "wg:"
    || begins server "ovpn:"
    || begins server "openvpn:"
    || begins server "ssh:"
    || begins server "tls:"
    || begins server "ssl:"
    || begins server "pssh:"
    || begins server "pppssh:"
    || begins server "pssl:"
    || begins server "pppssl:"
    || begins server "ptls:"
    || begins server "ppptls:"

abbrev pub commands_needing_server : List String
commands_needing_server = "add" ∷ "connect" ∷ "server" ∷ []

module _ (env : Env) where
  -- The test of `CommandLineValid`, without its messages.
  unfoldable pub accepts : String → String → Bool
  unfolding is_server_url
  accepts action server = not (
      env.match_token action commands_needing_server
      && (valid server && not (is_server_url server)))

  -- A name that was never set is NULL, and `IsServerURL(NULL)` faults in `strncmp`.
  unfoldable pub refuse : Option String → M Bool
  unfolding is_server_url
  refuse none s = (fault, s)
  refuse (some name) s =
      if is_server_url name
      then (emit (print "ERROR: Invalid command line: 'name' seems to be the service url.\n")
            >> pure false)
          s
      else (emit (print "Invalid command line: no server url\n") >> pure false) s

  unfoldable pub command_line_valid : String → Option String → String → M Bool
  unfolding accepts refuse
  command_line_valid action name server = if accepts action server then pure true else refuse name

-- `Action`, `Name` and `Server`, and the arguments left. `Name` is NULL where no argument is
-- taken as the name.
pub record Request : Type 0 where
  pub action : String
  pub name : Option String
  pub server : String
  pub rest : List String

abbrev pub next : List String → String
next [] = ""
next (a ∷ rest) = a

-- The name as `VpnCtxCreate` stores and tests it: `CopyStr` copies NULL as the empty text, which
-- `StrValid` takes for NULL too.
abbrev pub stored_name : Option String → String
stored_name none = ""
stored_name (some name) = name

abbrev pub after : List String → List String
after [] = []
after (a ∷ rest) = rest

with_name_and_server : String → List String → Request
with_name_and_server action args = record {
  action = action;
  name = some (next args);
  server = next (after args);
  rest = after (after args);
}

unfoldable pub with_name : String → List String → Request
with_name action args = record {
  action = action;
  name = some (next args);
  server = "";
  rest = after args;
}

with_server : String → List String → Request
with_server action args = record {
  action = action;
  name = none;
  server = next args;
  rest = after args;
}

-- `connect` takes one argument, which is a URL or a name.
connect_request : String → List String → Request
unfolding is_server_url
connect_request action args =
    if is_server_url (next args)
    then record { action = action; name = none; server = next args; rest = after args }
    else record { action = action; name = some (next args); server = ""; rest = after args }

with_nothing : String → List String → Request
with_nothing action args = record { action = action; name = none; server = ""; rest = args }

unfoldable pub read_request : String → List String → Request
unfolding with_name_and_server with_name with_server connect_request with_nothing
read_request a args =
    if case_eq a "add"
    then with_name_and_server a args
    else if case_eq a "conf"
    then with_name_and_server a args
    else if case_eq a "config"
    then with_name_and_server a args
    else if case_eq a "list"
    then with_name a args
    else if case_eq a "del"
    then with_name a args
    else if case_eq a "delete"
    then with_name a args
    else if case_eq a "protocols"
    then with_name a args
    else if case_eq a "server"
    then with_server a args
    else if case_eq a "connect"
    then connect_request a args
    else if case_eq a "version"
    then with_nothing "version" args
    else if case_eq a "-version"
    then with_nothing "version" args
    else if case_eq a "--version"
    then with_nothing "version" args
    else with_nothing "help" args

module _ (env : Env) where
  -- The last argument, with nothing behind it: `atoi(NULL)` faults.
  last_option : Kind → Vpn → M Vpn
  last_option (text_option put) v s = (ret (put v ""), s)
  last_option (number_option put) v s = (fault, s)
  last_option (duration_option put) v s = (ret (put v (env.parse_duration "")), s)
  last_option (vpn_flag put) v s = (ret (put v), s)
  last_option (global_flag put) v s = (ret v, record s { flags = put s.flags })
  last_option unknown_option v s = (ret v, s)

  -- The loop over the options.
  unfoldable pub parse_options : List String → Vpn → M Vpn
  unfolding last_option option_kind
  parse_options [] v s = (ret v, s)
  parse_options (arg ∷ []) v s = last_option (option_kind arg) v s
  parse_options (arg ∷ value ∷ rest) v s = elim (option_kind arg) [
    | text_option put ↦ parse_options rest (put v value) s
    | number_option put ↦ parse_options rest (put v (atoi value)) s
    | duration_option put ↦ parse_options rest (put v (env.parse_duration value)) s
    | vpn_flag put ↦ parse_options (value ∷ rest) (put v) s
    | global_flag put ↦ parse_options (value ∷ rest) v (record s { flags = put s.flags })
    | unknown_option ↦ parse_options (value ∷ rest) v s
  ]

  unfoldable pub with_options : List String → Option Vpn → M (Option Vpn)
  with_options rest none = pure none
  with_options rest (some v) = do v' ← parse_options rest v; pure (some v')

  -- The second half of `ParseCommandLine`, from the call of `CommandLineValid`.
  unfoldable pub parse_request : Request → M (Option Vpn)
  unfolding command_line_valid with_options vpn_ctx_create
  parse_request r = do
    fine ← command_line_valid env r.action r.name r.server
    if fine
        then vpn_ctx_create r.action (stored_name r.name) r.server >>= with_options r.rest
        else pure none

  unfoldable pub parse_command_line : List String → M (Option Vpn)
  unfolding parse_request read_request
  parse_command_line args = parse_request (read_request (next args) (after args))
