-- ===== src/Examples/Resolver.antt =====
-- The name servers' file around a link (resolv.c).
use vpn_mgr.Base.{
  String, ◌≡◌, refl, true, ◌||◌, some, none, List, [], ◌∷◌, ◌++◌, ◌==◌, if◌then◌else◌,
}
use vpn_mgr.Base.Chars.{case_eq, show, has_char, is_space}
use vpn_mgr.Base.Text.{strip_prefix}
use vpn_mgr.Process.{Env, State, ◌>>=◌}
use vpn_mgr.Resolv.{resolv_change, resolv_restore, write_resolv, write_servers}
use vpn_mgr.RunCommand.Format.{run_cmd_setup, run_cmd_format, get_var}
use vpn_mgr.RunCommand.Launch.{
  run_command, record_run, run_command_open, root_flags, or_su, open_try, setup_command, launch,
  authenticate, finish_run, drain,
}
use vpn_mgr.RunCommand.Output.{clean_up}
use vpn_mgr.Sample.{sample_env, start, stream_of, first_word, split_commas, trim_end}
use vpn_mgr.UpDown.Commands.{Steady}
use vpn_mgr.UpDown.Resolver.{Moves, files_after, resolv_change-files, resolv_restore-resolv_change}
use vpn_mgr.UpDown.Resolver.Moving.{Files, moved, resolv_conf, resolv_save, new_resolv}
use vpn_mgr.Vpn.{Vpn, fresh, act_connect}

abbrev env : Env
env = sample_env (λ trace. some (stream_of 3 [])) (λ trace. true)

abbrev steady : Steady env
unfolding sample_env
steady = record {
  pid = 0;
  executable = λ script. true;
  is_pid = λ trace. refl;
  is_executable = λ script trace. refl;
}

-- The three commands by which the program moves files.
effect : String → Files → Files
effect command files =
    if command == "mv /etc/resolv.conf /etc/vpn_mgr.resolv.save"
    then moved resolv_conf resolv_save files
    else if command == "mv -f /tmp/vpn_mgr-0.resolv.conf /etc/resolv.conf"
    then moved (new_resolv 0) resolv_conf files
    else if command == "mv /etc/vpn_mgr.resolv.save /etc/resolv.conf"
    then moved resolv_save resolv_conf files
    else files

moves : Moves effect 0
unfolding effect show
moves = record { save = λ files. refl; install = λ files. refl; restore = λ files. refl }

abbrev files : Files
files path =
    if path == "/etc/resolv.conf"
    then some "nameserver 192.0.2.53\n"
    else if path == "/tmp/vpn_mgr-0.resolv.conf"
    then some "nameserver 10.8.0.1\n"
    else none

abbrev home : Vpn
home = record (fresh act_connect "home" "wg:vpn.example.com") { dns = "10.8.0.1" }

abbrev with_mv : State
with_mv = record start { found = ("mv", "/bin/mv") ∷ [] }

resolv_change-files_example :
    (commands : List String) × ((resolv_change env "10.8.0.1" with_mv).1.ran ≡ commands ++ [])
    × (files_after effect files commands resolv_conf ≡ some "nameserver 10.8.0.1\n")
    × (files_after effect files commands resolv_save ≡ some "nameserver 192.0.2.53\n")
    × (files_after effect files commands (new_resolv 0) ≡ none)
unfolding resolv_change write_resolv write_servers run_command record_run run_command_open
    root_flags or_su open_try setup_command launch authenticate finish_run drain clean_up
    run_cmd_setup run_cmd_format get_var case_eq strip_prefix has_char sample_env split_commas
    first_word trim_end is_space show fresh ◌>>=◌
resolv_change-files_example =
    resolv_change-files env steady home effect moves with_mv files "nameserver 192.0.2.53\n" refl
      refl "nameserver 10.8.0.1\n" refl

resolv_restore-resolv_change_example :
    (commands : List String) × ((resolv_restore env (resolv_change env "10.8.0.1" with_mv).1).1.ran
      ≡ commands ++ [])
    × ((path : String)
        → files_after effect files commands path
          ≡ (if path == resolv_save || path == new_resolv 0 then none else files path))
unfolding resolv_change resolv_restore write_resolv write_servers run_command record_run
    run_command_open root_flags or_su open_try setup_command launch authenticate finish_run drain
    clean_up run_cmd_setup run_cmd_format get_var case_eq strip_prefix has_char sample_env
    split_commas first_word trim_end is_space show fresh ◌>>=◌
resolv_restore-resolv_change_example =
    resolv_restore-resolv_change env steady home effect moves with_mv files
      "nameserver 192.0.2.53\n" refl refl refl
