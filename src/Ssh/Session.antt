-- ===== src/Ssh/Session.antt =====
-- `SSHHostLookupIP`, `SSHVpnConnect`, `SSHSetup`, `SSHVpnValidate` and `SSHVpnUp` (ssh.c).
pub mod Plan
use vpn_mgr.Base.{
  ℕ, String, ◌<>◌, Bool, true, false, not, ◌||◌, eqb, Option, none, some, List, [], ◌∷◌, ◌==◌,
  if◌then◌else◌,
}
use vpn_mgr.Base.Chars.{skip_space, drop}
use vpn_mgr.Base.Text.{valid, strip_prefix}
use vpn_mgr.Common.{deliver}
use vpn_mgr.Net.{net_dev_find_next, net_get_default_ip}
use vpn_mgr.Process.{
  Read, Stream, ActiveStream, Env, M, ◌>>=◌, ◌>>◌, pure, emit, get_flags, ask_text, ask_stream,
  open_stream, close, write, print, lookup_host,
}
use vpn_mgr.Route.{route_setup_vpn_server}
use vpn_mgr.RunCommand.Format.{no_flags}
use vpn_mgr.RunCommand.Launch.{run_command_open}
use vpn_mgr.RunCommand.Output.{clean_up}
use vpn_mgr.Ssh.Remote.{ssh_vpn_sync, ssh_vpn_run_command, ssh_get_remote_dev}
use vpn_mgr.TunTap.{tun_setup}
use vpn_mgr.UpDown.{vpn_up, vpn_down}
use vpn_mgr.Vpn.{Vpn}

-- What is left of a text behind its first bytes, if it begins with them.
abbrev pub strip_or : String → String → String → String
strip_or prefix text other = elim (strip_prefix prefix text) [ none ↦ other | some rest ↦ rest ]

-- `Active` behind a call of `STREAMClose`: the pointer stays.
unfoldable pub after_close : ℕ → Option ActiveStream → Option ActiveStream
after_close id none = none
after_close id (some a) = some (record a { closed = a.closed || eqb a.id id })

module _ (env : Env) where
  -- The loop over the lines of ~/.ssh/config, with the `Host` read last and the address found
  -- last. The white space behind `Host ` is not skipped.
  unfoldable pub lookup_loop : String → List Read → String → String → M String
  lookup_loop host [] current ip = pure ip
  lookup_loop host (r ∷ reads) current ip =
      let line = env.trim_left (env.trim_right r.line) in
      let on_host = λ (name : String). lookup_loop host reads name ip in
      let on_address = λ (new : String). lookup_loop host reads current new in
      deliver r >> elim (strip_prefix "Host " line) [
        | some name ↦ on_host name
        | none ↦ elim (strip_prefix "HostName " line) [
          | some name ↦
              if host == current
              then ask_text env (lookup_host (skip_space name)) >>= on_address
              else on_address ip
          | none ↦ on_address ip
        ]
      ]

  unfoldable pub ssh_host_lookup_ip : String → M String
  ssh_host_lookup_ip host = do
    s ← ask_stream env (open_stream (env.home_dir <> "/.ssh/config") "r")
    elim s [
      | none ↦ pure ""
      | some file ↦ do ip ← lookup_loop host file.reads "" ""; emit (close file.id); pure ip
    ]

  unfoldable pub ssh_command : Vpn → String → String
  ssh_command v command =
      let url = env.unpack_url v.server in
      "ssh -t "
      <> (if valid url.user then url.user <> "@" else "")
      <> url.host
      <> (if valid url.port then " -p " <> url.port else "")
      <> (if valid v.ciphers then " -c '" <> v.ciphers <> "' " else "")
      <> (if valid command then " " <> command else "")

  unfoldable pub greet : Option Stream → M (Option Stream)
  greet none = pure none
  greet (some s) = do
    emit (print "~cSSH VPN:~0 Setup remote end of connection\n")
    emit (write s.id "export LC_ALL=C; export LANG=C; export PS1=\"\"; export PS2=\"\"\n")
    s' ← ssh_vpn_sync env s
    pure (some s')

  unfoldable pub ssh_vpn_connect : Vpn → String → M (Option Stream)
  ssh_vpn_connect v command = do
    ip ← ssh_host_lookup_ip (env.unpack_url v.server).host
    (if valid ip then route_setup_vpn_server env ip else pure tt)
    s ← run_command_open env (ssh_command v command) no_flags
    greet s

  -- The address of this end: the context's, or that of the default route.
  unfoldable pub own_address : Vpn → M Vpn
  own_address v =
      if valid v.local_address
      then pure v
      else do ip ← net_get_default_ip env; pure (record v { local_address = ip })

  unfoldable pub route_back : Vpn → Stream → String → M Stream
  route_back v s dev = if not (valid v.local_address) then pure s else do
    emit (
        print
          ("~cSSH VPN:~0 Adding route back to our local IP address '" <> v.local_address <> "'\n"))
    (_, s') ←
        ssh_vpn_run_command env s ("/sbin/route add -host " <> v.local_address <> " dev " <> dev)
          (record no_flags { su = true; sudo = true })
    pure s'

  -- Whether the remote end has a device, with the context and the stream behind it.
  unfoldable pub ssh_setup : Vpn → Stream → M (Bool × Vpn × Stream)
  ssh_setup v s = do
    emit (write s.id "stty -echo\n")
    s1 ← ssh_vpn_sync env s
    (dev, s2) ← ssh_get_remote_dev env s1
    if not (valid dev)
        then emit (print "~cSSH VPN: ~r~eFATAL: no 'tun' device associated with ssh connection~0\n")
          >> emit (print "~cSSH VPN:~0 ~gSetup complete~0\n")
          >> pure (false, v, s2)
        else do
          emit (print ("~cSSH VPN:~0 ~gconnected~0 using remote tunnel dev: [" <> dev <> "]\n"))
          v' ← own_address v
          s3 ← route_back v' s2 dev
          emit (print "~cSSH VPN:~0 ~gSetup complete~0\n")
          pure (true, v', s3)

  unfoldable pub process_loop : List Read → M (Unit {0})
  process_loop [] = pure tt
  process_loop (r ∷ reads) = do
    deliver r
    let line = env.trim_right r.line
    (if valid line then emit (print (line <> "\n")) else pure tt)
    f ← get_flags
    if f.exit then pure tt else process_loop reads

  unfoldable pub ssh_process : Stream → M (Unit {0})
  ssh_process s = do f ← get_flags; if f.exit then pure tt else process_loop s.reads

  -- A host that ssh resolves to another name than its own is configured.
  unfoldable pub validate_loop : String → List Read → Bool → Bool
  validate_loop host [] result = result
  validate_loop host (r ∷ reads) result =
      validate_loop host reads (elim (strip_prefix "hostname " (env.trim_right r.line)) [
        | none ↦ result
        | some resolved ↦ if host == resolved then result else true
      ])

  unfoldable pub ssh_vpn_validate : Vpn → M Bool
  ssh_vpn_validate v = do
    let host = (env.parse_url v.server).host
    s ← ask_stream env (open_stream ("cmd:ssh -T -G " <> host) "")
    fine ← (elim s [
      | none ↦ pure false
      | some file ↦ emit (close file.id) >> pure (validate_loop host file.reads false)
    ])
    (if fine
        then pure tt
        else emit (
            print (
              "~cSSH:~0 ~rERROR:~0 '" <> host
              <> "' does not seem to be configured in the ~/.ssh/config file. Please setup this connection\n")))
    pure fine

  unfoldable pub set_active : Stream → M (Unit {0})
  set_active stream s = pure tt (record s {
    active = some (record { id = stream.id; peer_pid = stream.peer_pid; closed = false });
  })

  -- `STREAMClose` of the session's stream, which may be the one in `Active`.
  unfoldable pub close_session : Stream → M (Unit {0})
  close_session stream s =
      emit (close stream.id) (record s { active = after_close stream.id s.active })

  unfoldable pub run_session : Vpn → String → Stream → M (Unit {0})
  run_session v dev s = do
    (ready, v', s') ← ssh_setup v s
    (if ready
        then vpn_up env v' dev
          >> set_active s'
          >> emit (print ("~gVPN UP:~0 dev=" <> dev <> "\n"))
          >> ssh_process s'
        else pure tt)
    clean_up env s' (record no_flags { kill = true })
    close_session s'
    vpn_down env v' dev

  unfoldable pub remote_tunnel : Vpn → String
  remote_tunnel v = if valid v.remote_dev then strip_or "tun" v.remote_dev v.remote_dev else "any"

  unfoldable pub ssh_vpn_up : Vpn → M (Unit {0})
  ssh_vpn_up v = do
    fine ← ssh_vpn_validate v
    if not fine then pure tt else do
      dev ← (if valid v.dev then pure v.dev else net_dev_find_next env "tun")
      if not (valid dev) then pure tt else do
        tun_setup env "tun" dev v.local_address
        s ← ssh_vpn_connect v (" -w " <> drop 3 dev <> ":" <> remote_tunnel v)
        elim s [ none ↦ pure tt | some stream ↦ run_session v dev stream ]
