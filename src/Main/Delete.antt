-- ===== src/Main/Delete.antt =====
-- What the command `delete` does, from the command line on (main.c).
use mathlib.Core.Path.{subst}
use vpn_mgr.Base.{sym, String, ◌<>◌, ◌≡◌, refl, ◌⊎◌, inl, inr, Option, none, some, List, [], ◌∷◌}
use vpn_mgr.Base.Chars.{case_eq}
use vpn_mgr.CommandLine.Laws.{accepts-empty}
use vpn_mgr.CommandLine.{
  Request, after, with_name, command_line_valid, read_request, parse_options, with_options,
  parse_request, parse_command_line,
}
use vpn_mgr.Main.{Inputs, perform, perform_parsed}
use vpn_mgr.Process.{Env, State, Res, ret, remove_dir, ◌>>=◌}
use vpn_mgr.Vpn.{act_delete, action_of, fresh, vpn_ctx_create}
use vpn_mgr.VpnConfig.Files.{delete_config}

-- The command line of the command with a name or without one.
abbrev pub delete_line : String → Option String → List String
delete_line a none = a ∷ []
delete_line a (some name) = a ∷ name ∷ []

abbrev pub name_or_empty : Option String → String
name_or_empty none = ""
name_or_empty (some name) = name

-- What is left in the trace.
abbrev deleted : Env → String → State → Res (Unit {0}) × State
deleted env name s = (
  ret tt,
  record s { trace = remove_dir (env.home_dir <> "/.config/vpn_mgr/" <> name <> "/") "" ∷ s.trace },
)

abbrev request : String → String → Request
request a name = record { action = a; name = some name; server = ""; rest = [] }

parse_request-delete :
    (env : Env) (i : Inputs) (a name : String) (s : State)
    → action_of a ≡ act_delete
    → (parse_request env (request a name) >>= perform_parsed env i) s ≡ deleted env name s
unfolding parse_request command_line_valid parse_options with_options vpn_ctx_create fresh perform
    perform_parsed delete_config ◌>>=◌
parse_request-delete env i a name s h = rw (accepts-empty env a) (rw (h, vpn_ctx_create) refl)

read_request-del :
    (name : Option String)
    → read_request "del" (after (delete_line "del" name)) ≡ request "del" (name_or_empty name)
unfolding read_request with_name case_eq
read_request-del none = refl
read_request-del (some name) = refl

read_request-delete :
    (name : Option String)
    → read_request "delete" (after (delete_line "delete" name))
      ≡ request "delete" (name_or_empty name)
unfolding read_request with_name case_eq
read_request-delete none = refl
read_request-delete (some name) = refl

delete_word :
    (env : Env) (i : Inputs) (a : String) (name : Option String) (s : State)
    → read_request a (after (delete_line a name)) ≡ request a (name_or_empty name)
    → action_of a ≡ act_delete
    → (parse_command_line env (delete_line a name) >>= perform_parsed env i) s
      ≡ deleted env (name_or_empty name) s
unfolding parse_command_line
delete_word env i a none s r h = rw r (parse_request-delete env i a "" s h)
delete_word env i a (some name) s r h = rw r (parse_request-delete env i a name s h)

-- The commands `del` and `delete`, with a name or without one, remove one directory and do
-- nothing else: the one below `.config/vpn_mgr` of the user's home that has the name, which
-- without a name is the directory that holds all configurations.
pub perform_parsed-delete :
    (env : Env) (i : Inputs) (a : String) (name : Option String) (s : State)
    → (a ≡ "del") ⊎ (a ≡ "delete")
    → (parse_command_line env (delete_line a name) >>= perform_parsed env i) s ≡ (
      ret tt,
      record s {
        trace =
            remove_dir (env.home_dir <> "/.config/vpn_mgr/" <> name_or_empty name <> "/") ""
            ∷ s.trace;
      },
    )
unfolding action_of
perform_parsed-delete env i a name s (inl e) =
    subst
      (λ a.
        (parse_command_line env (delete_line a name) >>= perform_parsed env i) s
        ≡ deleted env (name_or_empty name) s)
      (sym e) (delete_word env i "del" name s (read_request-del name) refl)
perform_parsed-delete env i a name s (inr e) =
    subst
      (λ a.
        (parse_command_line env (delete_line a name) >>= perform_parsed env i) s
        ≡ deleted env (name_or_empty name) s)
      (sym e) (delete_word env i "delete" name s (read_request-delete name) refl)
