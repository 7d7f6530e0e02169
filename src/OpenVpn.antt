-- ===== src/OpenVpn.antt =====
-- Openvpn (openvpn.c).
pub mod TakenDown
pub mod Followed
pub mod Plan
pub mod Dated
use vpn_mgr.Base.{
  String, ◌<>◌, true, not, ◌||◌, ◌&&◌, Option, none, some, List, [], ◌∷◌, ◌==◌, ltb, eqb,
  if◌then◌else◌,
}
use Prim.Native.String.{len}
use vpn_mgr.Base.Chars.{show_int}
use vpn_mgr.Base.Text.{valid, begins}
use vpn_mgr.Common.{deliver, read_file_text}
use vpn_mgr.Process.{
  Read, Stream, Env, M, ◌>>=◌, ◌>>◌, pure, emit, get_flags, ask_stream, open_stream, write, close,
  print,
}
use vpn_mgr.Route.{default_dev_get_mtu}
use vpn_mgr.RunCommand.Format.{cmd_asroot}
use vpn_mgr.RunCommand.Launch.{run_command, run_command_open}
use vpn_mgr.TunTap.{tun_available, tun_shutdown}
use vpn_mgr.UpDown.{vpn_up}
use vpn_mgr.Vpn.{Vpn}

abbrev pub vpn_file : Env → Vpn → String → String
vpn_file env v ext = env.home_dir <> "/.config/vpn_mgr/" <> v.name <> "/" <> v.name <> ext

-- What a line of openvpn's output tells.
pub data Notice : Type 0 where
  iface_up : String → Notice
  device : String → Notice
  completed other : Notice
  problem warning : String → Notice
  exiting : Notice

module _ (env : Env) where
  unfoldable pub skip_tokens : List (Unit {0}) → String → String
  skip_tokens [] text = text
  skip_tokens (t ∷ ts) text = skip_tokens ts (env.get_token text "\\S").1

  -- `OpenVpnReadLineSkipDateTime`: a first item of three letters is a day's name.
  unfoldable pub skip_date_time : String → String
  unfolding skip_tokens
  skip_date_time line =
      let (first, rest) = env.get_token line "\\S" in
      if eqb (len first) 3
      then skip_tokens (tt ∷ tt ∷ tt ∷ tt ∷ []) rest
      else skip_tokens (tt ∷ tt ∷ []) rest

  -- The chain on the first item behind the date, in `OpenVpnProcess`.
  unfoldable pub notice_of : String → Notice
  unfolding skip_date_time
  notice_of line =
      let (token, rest) = env.get_token (skip_date_time line) "\\S" in
      let (second, rest') = env.get_token rest "\\S" in
      let (third, _) = env.get_token rest' "\\S" in
      if token == "net_iface_up:"
      then iface_up third
      else if token == "TUN/TAP"
      then (if second == "device" then device third else other)
      else if token == "ERROR:"
      then problem rest
      else if token == "WARNING:"
      then warning rest
      else if token == "Initialization"
      then (if third == "Completed" then completed else other)
      else if token == "Exiting"
      then exiting
      else other

  -- Acts on a notice, and gives the device from then on.
  unfoldable pub act_on : Notice → Vpn → String → M String
  act_on (iface_up name) v dev = vpn_up env v name >> pure name
  act_on (device name) v dev = pure name
  act_on completed v dev = vpn_up env v dev >> pure dev
  act_on other v dev = pure dev
  act_on (problem text) v dev = emit (print ("~rERROR:~0 " <> text <> "\n")) >> pure dev
  act_on (warning text) v dev = emit (print ("~yWARNING:~0 " <> text <> "\n")) >> pure dev
  act_on exiting v dev = do
    f ← get_flags
    emit (
        print (
          if f.debug || f.verbose
          then "~rERROR:~0 openvpn exited unexpectedly.\n"
          else "~rERROR:~0 openvpn exited unexpectedly. run vpn_mgr with -verbose or -debug to get more info.\n"))
    pure dev

  unfoldable pub show_line : String → M (Unit {0})
  show_line line = do
    f ← get_flags
    if (f.debug || f.verbose) && not (begins line "vpn-mgr-") then emit (print line) else pure tt

  -- The loop of `OpenVpnProcess`.
  unfoldable pub open_vpn_loop : Vpn → List Read → String → M String
  open_vpn_loop v [] dev = pure dev
  open_vpn_loop v (r ∷ reads) dev = do
    deliver r
    show_line r.line
    f ← get_flags
    if f.exit
        then pure dev
        else do dev' ← act_on (notice_of (env.trim_right r.line)) v dev; open_vpn_loop v reads dev'

  unfoldable pub open_vpn_process : Vpn → Stream → M String
  open_vpn_process v s = open_vpn_loop v s.reads "????"

  unfoldable pub write_password : Vpn → Option Stream → M (Unit {0})
  write_password v none = pure tt
  write_password v (some s) =
      emit (write s.id (v.user_name <> "\n" <> v.password)) >> emit (close s.id)

  unfoldable pub gen_password_file : Vpn → M (Unit {0})
  gen_password_file v =
      ask_stream env (open_stream (vpn_file env v ".auth") "w") >>= write_password v

  unfoldable pub open_vpn_shut_down : Vpn → String → M (Unit {0})
  open_vpn_shut_down v dev = do
    text ← read_file_text env (vpn_file env v ".pid")
    let pid = env.trim_right (env.trim_right text)
    (if valid pid then run_command env ("kill " <> pid) cmd_asroot >> pure tt else pure tt)
    tun_shutdown env dev

  -- The command line without a configuration file.
  unfoldable pub client_command : Vpn → String
  client_command v =
      let url = env.parse_url v.server in
      "openvpn --client --tls-client --dev tun --persist-tun --nobind --keepalive 10 30 --remote "
      <> url.host
      <> " "
      <> url.port
      <> (if v.tcp then " --proto tcp-client " else " --proto udp ")
      <> (if valid v.pre_shared_key then " --secret " <> v.pre_shared_key else "")
      <> (if valid v.ciphers then " --cipher '" <> v.ciphers <> "' " else "")
      <> (if valid v.user_name then " --auth-user-pass " <> vpn_file env v ".auth " else "")
      <> (if valid v.client_cert
          then " --cert " <> v.client_cert <> " --key " <> v.client_key
          else "")
      <> (if valid v.verify_cert then " --ca " <> v.verify_cert else "")

  unfoldable pub open_vpn_command : Vpn → String
  unfolding client_command
  open_vpn_command v =
      (if valid v.conf_file then "openvpn --conf " <> v.conf_file else client_command v)
      <> (if ltb 0 v.mtu then " --tun-mtu " <> show_int v.mtu <> " " else "")
      <> " --writepid '"
      <> vpn_file env v ".pid' "

  unfoldable pub run_client : Vpn → Option Stream → M (Unit {0})
  run_client v none = pure tt
  run_client v (some s) = do
    dev ← open_vpn_process v s
    emit (print "~cOPENVPN:~0 ShuttingDown\n")
    open_vpn_shut_down v dev

  unfoldable pub open_vpn_up : Vpn → M (Unit {0})
  open_vpn_up v = do
    available ← tun_available env
    if not available then pure tt else do
      default_dev_get_mtu env
      (if not (valid v.conf_file) && valid v.user_name then gen_password_file v else pure tt)
      emit (print "~cOPENVPN:~0 Launch openvpn client\n")
      s ← run_command_open env (open_vpn_command v) (record cmd_asroot { kill = true })
      run_client v s
