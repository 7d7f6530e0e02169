-- ===== src/Orderly/Network.antt =====
-- Routes, name servers, the list of devices, and what runs when a link comes up or goes down
-- (route.c, resolv.c, net.c, updown.c).
use vpn_mgr.Base.{ℕ, zero, suc, ◌+◌, String, ◌<>◌, Option, none, some, List, [], ◌∷◌, if◌then◌else◌}
use vpn_mgr.Base.Chars.{show}
use vpn_mgr.Net.{
  load_lines, load_stream, net_load_devices, net_dev_exists, find_next, net_dev_find_next,
  net_get_default_ip, net_dev_find_for_ip, net_dev_find_next_ip, set_address, net_setup,
  net_shutdown,
}
use vpn_mgr.Orderly.Commands.{read_file_text-Orderly, log_event-Orderly, run_command-Orderly}
use vpn_mgr.Process.Orderly.{
  Orderly, >>=-Orderly, if-Orderly, pure-Orderly, emit-Orderly, ask-Orderly, orderly_rules,
}
use vpn_mgr.Process.{Env, Read, Stream, ◌>>=◌, pure, emit, access, x_ok, ask_yes, ask_text}
use vpn_mgr.Resolv.{write_servers, write_resolv, resolv_change}
use vpn_mgr.Route.{
  read_routes, route_get_default, route_get_default_dev, route_setup_vpn_server, route_setup_all,
  route_setup, default_dev_get_mtu,
}
use vpn_mgr.RunCommand.Format.{cmd_asroot}
use vpn_mgr.RunCommand.Launch.{run_command}
use vpn_mgr.UpDown.{run_scripts, up_down_run_files, vpn_up, vpn_down, script_command}
use vpn_mgr.Vpn.{Vpn}

write_servers-Orderly : (id : ℕ) (servers : List String) → Orderly (write_servers id servers)
unfolding write_servers
write_servers-Orderly id [] = pure-Orderly tt
write_servers-Orderly id (x ∷ servers) =
    >>=-Orderly (emit _) _ (emit-Orderly _) (λ _. write_servers-Orderly id servers)

write_resolv-Orderly :
    (servers : List String) (s : Option Stream) → Orderly (write_resolv servers s)
unfolding write_resolv
write_resolv-Orderly servers none = pure-Orderly tt
write_resolv-Orderly servers (some s) = search (orderly_rules, write_servers-Orderly) depth 12

module _ (env : Env) where
  read_routes-Orderly : (f : List Read → String) (s : Option Stream) → Orderly (read_routes env f s)
  unfolding read_routes
  read_routes-Orderly f none = pure-Orderly ""
  read_routes-Orderly f (some s) = search orderly_rules depth 12

  route_get_default-Orderly : Orderly (route_get_default env)
  unfolding route_get_default
  route_get_default-Orderly = search (orderly_rules, read_routes-Orderly) depth 12

  route_get_default_dev-Orderly : Orderly (route_get_default_dev env)
  unfolding route_get_default_dev
  route_get_default_dev-Orderly = search (orderly_rules, read_routes-Orderly) depth 12

  pub route_setup_vpn_server-Orderly : (d : String) → Orderly (route_setup_vpn_server env d)
  unfolding route_setup_vpn_server
  route_setup_vpn_server-Orderly d =
      search (orderly_rules, route_get_default-Orderly, run_command-Orderly) depth 14

  route_setup_all-Orderly :
      (dev : String) (items : List String) → Orderly (route_setup_all env dev items)
  unfolding route_setup_all
  route_setup_all-Orderly dev [] = pure-Orderly tt
  route_setup_all-Orderly dev (item ∷ items) = >>=-Orderly (emit _) _ (emit-Orderly _) λ _.
      >>=-Orderly (run_command env _ cmd_asroot) _ (run_command-Orderly env _ cmd_asroot)
        λ _. route_setup_all-Orderly dev items

  route_setup-Orderly : (addresses dev : String) → Orderly (route_setup env addresses dev)
  unfolding route_setup
  route_setup-Orderly addresses dev = route_setup_all-Orderly dev (env.tokens addresses ",")

  pub default_dev_get_mtu-Orderly : Orderly (default_dev_get_mtu env)
  unfolding default_dev_get_mtu
  default_dev_get_mtu-Orderly =
      search (orderly_rules, route_get_default_dev-Orderly, read_file_text-Orderly) depth 12

  resolv_change-Orderly : (servers : String) → Orderly (resolv_change env servers)
  unfolding resolv_change
  resolv_change-Orderly servers =
      search (orderly_rules, write_resolv-Orderly, run_command-Orderly) depth 18

  load_lines-Orderly : (reads : List Read) → Orderly (load_lines env reads)
  unfolding load_lines
  load_lines-Orderly [] = pure-Orderly []
  load_lines-Orderly (r ∷ reads) =
      >>=-Orderly (ask_text env _) _ (ask-Orderly env.text _) λ ip.
        >>=-Orderly (load_lines env reads) _ (load_lines-Orderly reads) (λ more. pure-Orderly _)

  load_stream-Orderly : (s : Option Stream) → Orderly (load_stream env s)
  unfolding load_stream
  load_stream-Orderly none = pure-Orderly []
  load_stream-Orderly (some s) = search (orderly_rules, load_lines-Orderly) depth 12

  net_load_devices-Orderly : Orderly (net_load_devices env)
  unfolding net_load_devices
  net_load_devices-Orderly = search (orderly_rules, load_stream-Orderly) depth 12

  pub net_dev_exists-Orderly : (name : String) → Orderly (net_dev_exists env name)
  unfolding net_dev_exists
  net_dev_exists-Orderly name = search (orderly_rules, net_load_devices-Orderly) depth 12

  find_next-Orderly : (rounds i : ℕ) (prefix : String) → Orderly (find_next env rounds i prefix)
  unfolding find_next
  find_next-Orderly zero i prefix = pure-Orderly ""
  find_next-Orderly (suc rounds) i prefix =
      >>=-Orderly (net_dev_exists env (prefix <> show i)) _
        (net_dev_exists-Orderly (prefix <> show i))
        λ exists. if-Orderly exists _ _ (find_next-Orderly rounds (i + 1) prefix) (pure-Orderly _)

  pub net_dev_find_next-Orderly : (prefix : String) → Orderly (net_dev_find_next env prefix)
  unfolding net_dev_find_next
  net_dev_find_next-Orderly prefix = find_next-Orderly 999 0 prefix

  pub net_get_default_ip-Orderly : Orderly (net_get_default_ip env)
  unfolding net_get_default_ip
  net_get_default_ip-Orderly = search (orderly_rules, route_get_default_dev-Orderly) depth 12

  pub net_dev_find_for_ip-Orderly :
      (prefix ip : String) → Orderly (net_dev_find_for_ip env prefix ip)
  unfolding net_dev_find_for_ip
  net_dev_find_for_ip-Orderly prefix ip = search (orderly_rules, net_load_devices-Orderly) depth 12

  pub net_dev_find_next_ip-Orderly : (prefix : String) → Orderly (net_dev_find_next_ip env prefix)
  unfolding net_dev_find_next_ip
  net_dev_find_next_ip-Orderly prefix = search (orderly_rules, net_load_devices-Orderly) depth 12

  set_address-Orderly : (v : Vpn) (dev : String) → Orderly (set_address env v dev)
  unfolding set_address
  set_address-Orderly v dev = search (orderly_rules, run_command-Orderly) depth 12

  net_setup-Orderly : (v : Vpn) (dev : String) → Orderly (net_setup env v dev)
  unfolding net_setup
  net_setup-Orderly v dev =
      search (orderly_rules, set_address-Orderly, route_setup-Orderly, resolv_change-Orderly) depth
        16

  net_shutdown-Orderly : (dev : String) → Orderly (net_shutdown env dev)
  unfolding net_shutdown
  net_shutdown-Orderly dev = search (orderly_rules, run_command-Orderly) depth 16

  run_scripts-Orderly :
      (v : Vpn) (dev : String) (files : List String) → Orderly (run_scripts env v dev files)
  unfolding run_scripts
  run_scripts-Orderly v dev [] = pure-Orderly tt
  run_scripts-Orderly v dev (script ∷ more) =
      >>=-Orderly (ask_yes env (access script x_ok)) _ (ask-Orderly env.yes _) λ runs.
        >>=-Orderly
          (if runs
            then run_command env (script_command v dev script) cmd_asroot >>= (λ _. pure tt)
            else pure tt)
          _ (search (orderly_rules, run_command-Orderly) depth 12)
          (λ _. run_scripts-Orderly v dev more)

  up_down_run_files-Orderly :
      (v : Vpn) (files dev : String) → Orderly (up_down_run_files env v files dev)
  unfolding up_down_run_files
  up_down_run_files-Orderly v files dev = run_scripts-Orderly v dev (env.tokens files ":")

  pub vpn_up-Orderly : (v : Vpn) (dev : String) → Orderly (vpn_up env v dev)
  unfolding vpn_up
  vpn_up-Orderly v dev =
      search (orderly_rules, net_setup-Orderly, up_down_run_files-Orderly, log_event-Orderly) depth
        14

  pub vpn_down-Orderly : (v : Vpn) (dev : String) → Orderly (vpn_down env v dev)
  unfolding vpn_down
  vpn_down-Orderly v dev =
      search (orderly_rules, net_shutdown-Orderly, up_down_run_files-Orderly, log_event-Orderly)
        depth 14
