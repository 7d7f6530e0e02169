-- ===== src/Orderly/Shell.antt =====
-- The remote shell and the tunnel over it (ssh.c, pppssh.c).
use vpn_mgr.Base.{
  ℕ, zero, suc, ◌-◌, eqb, leb, String, refl, not, false, Option, none, some, List, [], ◌∷◌, ◌==◌,
}
use vpn_mgr.Base.Chars.{skip_space, str_len}
use vpn_mgr.Base.Text.{valid, begins, strip_prefix}
use vpn_mgr.Common.{deliver}
use vpn_mgr.Orderly.Commands.{
  deliver-Orderly, log_event-Orderly, run_command_open-Orderly, clean_up-Orderly, read_loop-Orderly,
}
use vpn_mgr.Orderly.Devices.{tun_setup-Orderly, pppd_process-Orderly}
use vpn_mgr.Orderly.Network.{
  net_dev_find_next-Orderly, net_get_default_ip-Orderly, route_setup_vpn_server-Orderly,
  vpn_up-Orderly, vpn_down-Orderly,
}
use vpn_mgr.Ppp.{Ready}
use vpn_mgr.PppSsh.{client_name, run_remote, ppp_ssh_vpn_up}
use vpn_mgr.Process.Orderly.{
  Orderly, Ordered-trace, >>=-Orderly, if-Orderly, pure-Orderly, emit-Orderly, ask-Orderly,
  get_flags-Orderly, Option-Orderly, List-Orderly, orderly_rules,
}
use vpn_mgr.Process.{Env, M, Read, Stream, ◌>>=◌, get_flags, emit, ask_text, lookup_host}
use vpn_mgr.RunCommand.Format.{CmdFlags}
use vpn_mgr.Ssh.Remote.{
  debug_print, Synced, found_key, awaits, after_sync, send_sync, sync_line, sync_loop, ssh_vpn_sync,
  take_bytes, read_bytes_left, format_remote, send_command, run_command_try, remote_allowed,
  ssh_vpn_run_command, find_in_dirs, ssh_host_find_command, remote_dev_loop, ssh_get_remote_dev,
  parse_ls,
}
use vpn_mgr.Ssh.Session.{
  lookup_loop, ssh_host_lookup_ip, greet, ssh_vpn_connect, own_address, route_back, ssh_setup,
  process_loop, ssh_process, ssh_vpn_validate, set_active, close_session, run_session, ssh_vpn_up,
}
use vpn_mgr.Vpn.{Vpn}

debug_print-Orderly : (line : String) → Orderly (debug_print line)
unfolding debug_print
debug_print-Orderly line = search orderly_rules depth 12

after_sync-Orderly :
    (next : Synced) (reads : List Read) (again : String → M (List Read))
    → ((key : String) → Orderly (again key))
    → Orderly (after_sync next reads again)
unfolding after_sync
after_sync-Orderly found_key reads again h = pure-Orderly reads
after_sync-Orderly (awaits key) reads again h = h key

take_bytes-Orderly : (n : ℕ) (reads : List Read) → Orderly (take_bytes n reads)
unfolding take_bytes
take_bytes-Orderly n [] = pure-Orderly []
take_bytes-Orderly n (r ∷ reads) = if-Orderly (eqb n 0) _ _ (pure-Orderly _) (
    >>=-Orderly (deliver r) _ (deliver-Orderly r) λ _.
      if-Orderly (leb (str_len r.line) n) _ _ (take_bytes-Orderly (n - str_len r.line) reads)
        (pure-Orderly _))

module _ (env : Env) where
  set_active-Orderly : (s : Stream) → Orderly (set_active env s)
  unfolding set_active ◌>>=◌
  set_active-Orderly stream = record {
    at = λ s. (
      tt,
      record {
        found = refl;
        nodns = refl;
        debug = refl;
        verbose = refl;
        exit = λ h. h;
        ran = ([], refl);
      },
    );
  }

  close_session-Orderly : (s : Stream) → Orderly (close_session env s)
  unfolding close_session ◌>>=◌
  close_session-Orderly stream = record {
    at = λ s. (
      tt,
      record {
        found = refl;
        nodns = refl;
        debug = refl;
        verbose = refl;
        exit = λ h. h;
        ran = ([], refl);
      },
    );
  }

  send_sync-Orderly : (id : ℕ) → Orderly (send_sync env id)
  unfolding send_sync
  send_sync-Orderly id = search (orderly_rules, debug_print-Orderly) depth 14

  sync_line-Orderly : (id : ℕ) (key line : String) → Orderly (sync_line env id key line)
  unfolding sync_line
  sync_line-Orderly id key line =
      search (orderly_rules, send_sync-Orderly, debug_print-Orderly) depth 14

  sync_loop-Orderly :
      (id : ℕ) (reads : List Read) (key : String) → Orderly (sync_loop env id reads key)
  unfolding sync_loop
  sync_loop-Orderly id [] key = pure-Orderly []
  sync_loop-Orderly id (r ∷ reads) key = >>=-Orderly (deliver r) _ (deliver-Orderly r) λ _.
      >>=-Orderly (sync_line env id key r.line) _ (sync_line-Orderly id key r.line)
        λ next. after_sync-Orderly next reads _ (sync_loop-Orderly id reads)

  read_bytes_left-Orderly : (id : ℕ) (reads : List Read) → Orderly (read_bytes_left env id reads)
  unfolding read_bytes_left
  read_bytes_left-Orderly id reads = search (orderly_rules, take_bytes-Orderly) depth 12

  ssh_vpn_sync-Orderly : (s : Stream) → Orderly (ssh_vpn_sync env s)
  unfolding ssh_vpn_sync
  ssh_vpn_sync-Orderly s =
      search (orderly_rules, send_sync-Orderly, sync_loop-Orderly, read_bytes_left-Orderly) depth 14

  format_remote-Orderly : (c : String) (f : CmdFlags) → Orderly (format_remote env c f)
  unfolding format_remote ◌>>=◌
  format_remote-Orderly c f = record { at = λ s. (tt, Ordered-trace s s.trace) }

  send_command-Orderly : (s : Stream) (c : String) (f : CmdFlags) → Orderly (send_command env s c f)
  unfolding send_command
  send_command-Orderly s c f =
      search (orderly_rules, format_remote-Orderly, read_loop-Orderly) depth 18

  run_command_try-Orderly :
      (s : Stream) (c : String) (f : CmdFlags) → Orderly (run_command_try env s c f)
  unfolding run_command_try
  run_command_try-Orderly s c f =
      search (orderly_rules, ssh_vpn_sync-Orderly, send_command-Orderly) depth 18

  remote_allowed-Orderly : (f : CmdFlags) → Orderly (remote_allowed env f)
  unfolding remote_allowed
  remote_allowed-Orderly f = search orderly_rules depth 12

  ssh_vpn_run_command-Orderly :
      (s : Stream) (c : String) (f : CmdFlags) → Orderly (ssh_vpn_run_command env s c f)
  unfolding ssh_vpn_run_command
  ssh_vpn_run_command-Orderly s c f =
      search (orderly_rules, remote_allowed-Orderly, run_command_try-Orderly) depth 18

  find_in_dirs-Orderly :
      (s : Stream) (c : String) (dirs : List String) → Orderly (find_in_dirs env s c dirs)
  unfolding find_in_dirs
  find_in_dirs-Orderly s c [] = pure-Orderly _
  find_in_dirs-Orderly s c (dir ∷ dirs) = >>=-Orderly (emit _) _ (emit-Orderly _) λ _.
      >>=-Orderly _ _
        (List-Orderly s.reads _ _ (pure-Orderly _)
          (λ r reads. >>=-Orderly (deliver r) _ (deliver-Orderly r) (λ _. pure-Orderly _)))
        λ x.
          if-Orderly (valid (parse_ls env c (env.trim_right x.0))) _ _ (pure-Orderly _)
            (find_in_dirs-Orderly x.1 c dirs)

  ssh_host_find_command-Orderly :
      (s : Stream) (c path : String) → Orderly (ssh_host_find_command env s c path)
  unfolding ssh_host_find_command
  ssh_host_find_command-Orderly s c path =
      search (orderly_rules, find_in_dirs-Orderly, log_event-Orderly) depth 16

  remote_dev_loop-Orderly :
      (rounds : ℕ) (last : String) (reads : List Read)
      → Orderly (remote_dev_loop env rounds last reads)
  unfolding remote_dev_loop
  remote_dev_loop-Orderly zero last reads = pure-Orderly _
  remote_dev_loop-Orderly (suc rounds) last [] = pure-Orderly _
  remote_dev_loop-Orderly (suc rounds) last (r ∷ reads) =
      >>=-Orderly (deliver r) _ (deliver-Orderly r) λ _.
        >>=-Orderly (debug_print _) _ (debug_print-Orderly _) λ _.
          if-Orderly (begins (env.trim_right r.line) "tun") _ _ (pure-Orderly _)
            (remote_dev_loop-Orderly rounds (env.trim_right r.line) reads)

  ssh_get_remote_dev-Orderly : (s : Stream) → Orderly (ssh_get_remote_dev env s)
  unfolding ssh_get_remote_dev
  ssh_get_remote_dev-Orderly s = search (orderly_rules, remote_dev_loop-Orderly) depth 14

  lookup_loop-Orderly :
      (host : String) (reads : List Read) (current ip : String)
      → Orderly (lookup_loop env host reads current ip)
  unfolding lookup_loop
  lookup_loop-Orderly host [] current ip = pure-Orderly ip
  lookup_loop-Orderly host (r ∷ reads) current ip =
      let line = env.trim_left (env.trim_right r.line) in
      >>=-Orderly (deliver r) _ (deliver-Orderly r) λ _.
        Option-Orderly (strip_prefix "Host " line) _ _
          (Option-Orderly (strip_prefix "HostName " line) _ _
            (lookup_loop-Orderly host reads current ip)
            (λ name.
              if-Orderly (host == current) _ _
                (>>=-Orderly (ask_text env (lookup_host (skip_space name))) _
                  (ask-Orderly env.text _) (λ new. lookup_loop-Orderly host reads current new))
                (lookup_loop-Orderly host reads current ip)))
          (λ name. lookup_loop-Orderly host reads name ip)

  ssh_host_lookup_ip-Orderly : (host : String) → Orderly (ssh_host_lookup_ip env host)
  unfolding ssh_host_lookup_ip
  ssh_host_lookup_ip-Orderly host = >>=-Orderly _ _ (ask-Orderly env.stream _) λ s.
      Option-Orderly s _ _ (pure-Orderly "")
        λ file. search (orderly_rules, lookup_loop-Orderly) depth 14

  greet-Orderly : (s : Option Stream) → Orderly (greet env s)
  unfolding greet
  greet-Orderly none = pure-Orderly none
  greet-Orderly (some s) = search (orderly_rules, ssh_vpn_sync-Orderly) depth 14

  ssh_vpn_connect-Orderly : (v : Vpn) (c : String) → Orderly (ssh_vpn_connect env v c)
  unfolding ssh_vpn_connect
  ssh_vpn_connect-Orderly v c =
      search
        (
          orderly_rules, ssh_host_lookup_ip-Orderly, route_setup_vpn_server-Orderly,
          run_command_open-Orderly, greet-Orderly,
        )
        depth 16

  own_address-Orderly : (v : Vpn) → Orderly (own_address env v)
  unfolding own_address
  own_address-Orderly v = search (orderly_rules, net_get_default_ip-Orderly) depth 14

  route_back-Orderly : (v : Vpn) (s : Stream) (dev : String) → Orderly (route_back env v s dev)
  unfolding route_back
  route_back-Orderly v s dev = search (orderly_rules, ssh_vpn_run_command-Orderly) depth 16

  ssh_setup-Orderly : (v : Vpn) (s : Stream) → Orderly (ssh_setup env v s)
  unfolding ssh_setup
  ssh_setup-Orderly v s =
      search
        (
          orderly_rules, ssh_vpn_sync-Orderly, ssh_get_remote_dev-Orderly, own_address-Orderly,
          route_back-Orderly,
        )
        depth 24

  process_loop-Orderly : (reads : List Read) → Orderly (process_loop env reads)
  unfolding process_loop
  process_loop-Orderly [] = pure-Orderly tt
  process_loop-Orderly (r ∷ reads) = >>=-Orderly (deliver r) _ (deliver-Orderly r) λ _.
      >>=-Orderly _ _
        (if-Orderly (valid (env.trim_right r.line)) _ _ (emit-Orderly _) (pure-Orderly tt))
        λ _.
          >>=-Orderly get_flags _ get_flags-Orderly
            λ f. if-Orderly f.exit _ _ (pure-Orderly tt) (process_loop-Orderly reads)

  ssh_process-Orderly : (s : Stream) → Orderly (ssh_process env s)
  unfolding ssh_process
  ssh_process-Orderly s = search (orderly_rules, process_loop-Orderly) depth 12

  ssh_vpn_validate-Orderly : (v : Vpn) → Orderly (ssh_vpn_validate env v)
  unfolding ssh_vpn_validate
  ssh_vpn_validate-Orderly v = >>=-Orderly _ _ (ask-Orderly env.stream _) λ s.
      >>=-Orderly _ _
        (Option-Orderly s _ _ (pure-Orderly false) (λ file. search orderly_rules depth 12))
        (λ fine. search orderly_rules depth 12)

  run_session-Orderly : (v : Vpn) (dev : String) (s : Stream) → Orderly (run_session env v dev s)
  unfolding run_session
  run_session-Orderly v dev s =
      search
        (
          orderly_rules, ssh_setup-Orderly, vpn_up-Orderly, set_active-Orderly, ssh_process-Orderly,
          close_session-Orderly, clean_up-Orderly, vpn_down-Orderly,
        )
        depth 24

  pub ssh_vpn_up-Orderly : (v : Vpn) → Orderly (ssh_vpn_up env v)
  unfolding ssh_vpn_up
  ssh_vpn_up-Orderly v = >>=-Orderly (ssh_vpn_validate env v) _ (ssh_vpn_validate-Orderly v) λ fine.
      if-Orderly (not fine) _ _ (pure-Orderly tt) (
        >>=-Orderly _ _
          (if-Orderly (valid v.dev) _ _ (pure-Orderly v.dev) (net_dev_find_next-Orderly env "tun"))
          λ dev. if-Orderly (not (valid dev)) _ _ (pure-Orderly tt) (
            >>=-Orderly _ _ (tun_setup-Orderly env "tun" dev v.local_address) λ _.
              >>=-Orderly _ _ (ssh_vpn_connect-Orderly v _) λ s.
                Option-Orderly s _ _ (pure-Orderly tt)
                  (λ stream. run_session-Orderly v dev stream)))

  client_name-Orderly : (v : Vpn) → Orderly (client_name env v)
  unfolding client_name
  client_name-Orderly v = search orderly_rules depth 14

  run_remote-Orderly :
      (v : Vpn) (events : List Ready) (s : Option Stream) → Orderly (run_remote env v events s)
  unfolding run_remote
  run_remote-Orderly v events none = pure-Orderly tt
  run_remote-Orderly v events (some s) =
      search
        (
          orderly_rules, ssh_host_find_command-Orderly, client_name-Orderly,
          ssh_vpn_run_command-Orderly, pppd_process-Orderly,
        )
        depth 24

  pub ppp_ssh_vpn_up-Orderly :
      (v : Vpn) (events : List Ready) → Orderly (ppp_ssh_vpn_up env v events)
  unfolding ppp_ssh_vpn_up
  ppp_ssh_vpn_up-Orderly v events =
      search (orderly_rules, ssh_vpn_validate-Orderly, ssh_vpn_connect-Orderly, run_remote-Orderly)
        depth 16
