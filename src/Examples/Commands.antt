-- ===== src/Examples/Commands.antt =====
-- Command lines, and the commands that are run.
use vpn_mgr.Base.{◌≡◌, refl, true, some, List, [], ◌∷◌, inl, inr}
use vpn_mgr.Base.Chars.{case_eq, has_char, is_space}
use vpn_mgr.Base.Text.{strip_prefix}
use vpn_mgr.CommandLine.Documented.{TextOption, parse_options-as_arguments, parse_options-number}
use vpn_mgr.CommandLine.{parse_options}
use vpn_mgr.Process.{Env, ◌>>=◌, fault}
use vpn_mgr.Route.{route_setup, route_setup_all, route_command}
use vpn_mgr.RunCommand.Format.{get_var, run_cmd_setup}
use vpn_mgr.RunCommand.Launch.{
  run_command, record_run, run_command_open, root_flags, or_su, open_try, setup_command, launch,
  authenticate, finish_run, drain,
}
use vpn_mgr.RunCommand.Output.{clean_up}
use vpn_mgr.Sample.{sample_env, start, stream_of, trim_end, split_commas}
use vpn_mgr.Vpn.{Vpn, fresh, act_connect}

-- Root, to whom every program starts.
abbrev env : Env
env = sample_env (λ trace. some (stream_of 3 [])) (λ trace. true)

abbrev home : Vpn
home = fresh act_connect "home" ""

abbrev options : List TextOption
options =
    record {
      arg = "-a";
      put = λ v x. record v { allowed_ips = x };
      value = "10.0.0.0/8";
      listed = inr (inr (inr (inl (inl refl, refl))));
    }
    ∷ record {
      arg = "-user";
      put = λ v x. record v { user_name = x };
      value = "-mtu";
      listed = inr (
          inr (
            inr (
              inr (
                inr
                  (inr (inr (inr (inr (inr (inr (inr (inr (inr (inl (inl refl, refl)))))))))))))));
    }
    ∷ []

parse_options-as_arguments_example :
    parse_options env ("-a" ∷ "10.0.0.0/8" ∷ "-user" ∷ "-mtu" ∷ "-tcp" ∷ []) home start
    ≡ parse_options env
        ("-tcp" ∷ [])
        (record home { allowed_ips = "10.0.0.0/8"; user_name = "-mtu" })
        start
parse_options-as_arguments_example = parse_options-as_arguments env options ("-tcp" ∷ []) home start

parse_options-number_example :
    parse_options env ("-a" ∷ "10.0.0.0/8" ∷ "-user" ∷ "-mtu" ∷ "-mtu" ∷ []) home start
    ≡ (fault, start)
parse_options-number_example = parse_options-number env options "-mtu" home start (inl refl)

route_setup_run :
    (route_setup env "10.0.0.0/8,192.0.2.1" "tun0" start).1.ran
    ≡ "route add -host 192.0.2.1 tun0" ∷ "route add -net 10.0.0.0/8 tun0" ∷ []
unfolding route_setup route_setup_all route_command run_command record_run run_command_open
    root_flags or_su open_try setup_command launch authenticate finish_run drain clean_up
    run_cmd_setup get_var case_eq strip_prefix has_char sample_env trim_end split_commas is_space
    ◌>>=◌
route_setup_run = refl
