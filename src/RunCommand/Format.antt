-- ===== src/RunCommand/Format.antt =====
-- `FindCommands`, `GetCommandPath`, `RunCmdFormat` and `RunCmdSetup` (run_command.c).
use vpn_mgr.Base.{String, ◌<>◌, Bool, true, false, Option, none, some, List, [], ◌∷◌, if◌then◌else◌}
use vpn_mgr.Base.Chars.{case_eq}
use vpn_mgr.Base.Text.{valid, begins}
use vpn_mgr.Process.{Env, M, ◌>>=◌, ◌>>◌, pure, ask_text, find_in_path}

-- The CMD_ flags of one command.
pub record CmdFlags : Type 0 where
  pub asroot : Bool
  pub su : Bool
  pub sudo : Bool
  pub ssh : Bool
  pub nosync : Bool
  pub no_stderr : Bool
  pub kill : Bool
  pub verbose : Bool

abbrev pub no_flags : CmdFlags
no_flags = record {
  asroot = false;
  su = false;
  sudo = false;
  ssh = false;
  nosync = false;
  no_stderr = false;
  kill = false;
  verbose = false;
}

abbrev pub cmd_asroot : CmdFlags
cmd_asroot = record no_flags { asroot = true }

-- `GetVar` and `SetVar` (libUseful-bundled/Vars.c) on a list of named values: a name stands for
-- every spelling of it in upper and lower case, and the first spelling stays.
unfoldable pub get_var : String → List (String × String) → String
get_var k [] = ""
get_var k ((j, v) ∷ more) = if case_eq j k then v else get_var k more

unfoldable pub set_var : String → String → List (String × String) → List (String × String)
set_var k v [] = (k, v) ∷ []
set_var k v ((j, w) ∷ more) = if case_eq j k then (j, v) ∷ more else (j, w) ∷ set_var k v more

module _ (env : Env) where
  unfoldable pub add_found : String → String → M (Unit {0})
  unfolding set_var
  add_found item path s =
      pure tt (if valid path then record s { found = set_var item path s.found } else s)

  unfoldable pub find_all : String → List String → M (Unit {0})
  unfolding add_found
  find_all path [] = pure tt
  find_all path (item ∷ items) =
      (ask_text env (find_in_path item path) >>= add_found item) >> find_all path items

  unfoldable pub find_commands : String → M (Unit {0})
  unfolding find_all
  find_commands commands =
      find_all (env.search_path <> ":/sbin:/usr/sbin:/usr/local/sbin") (env.tokens commands ",")

abbrev pub get_command_path : List (String × String) → String → String
get_command_path found command = get_var command found

-- Without the program, `sudo` or `su`, the text that was there stays.
unfoldable pub run_cmd_format :
    List (String × String) → String → String → String → CmdFlags → String
run_cmd_format found old cmd args f =
    let prefix = if f.ssh then "" else "cmd:" in
    if f.sudo
    then if valid (get_command_path found "sudo")
      then prefix <> "sudo -S /bin/sh -c 'echo vpn-mgr-cmd-run;" <> cmd <> " " <> args
        <> "'; echo vpn-mgr-sudo-done"
      else old
    else if f.su
    then if valid (get_command_path found "su")
      then prefix <> "su " <> " -c 'echo vpn-mgr-cmd-run; " <> cmd <> " " <> args
        <> "'; echo vpn-mgr-su-done"
      else old
    else prefix <> cmd <> " " <> args

-- The path of the program: as it stands, if it is absolute, or where it was found.
abbrev pub program_path : List (String × String) → String → String
program_path found token = if begins token "/" then token else get_command_path found token

-- NULL if the program is not known.
unfoldable pub run_cmd_setup : Env → List (String × String) → String → CmdFlags → Option String
unfolding run_cmd_format
run_cmd_setup env found cmd f =
    let (token, args) = env.get_token cmd "\\S" in
    let path = program_path found token in
    if valid path then some (run_cmd_format found "" path args f) else none
