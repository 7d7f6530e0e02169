-- ===== src/Main.antt =====
-- The whole program (main.c).
pub mod Delete
pub mod Upkeep
pub mod Protocols
pub mod Saved
use vpn_mgr.Base.{
  ℕ, String, ◌<>◌, Bool, true, false, not, Option, none, some, List, [], ◌∷◌, eqb, if◌then◌else◌,
}
use vpn_mgr.Base.Chars.{case_eq, case_prefix}
use vpn_mgr.Base.Text.{valid}
use vpn_mgr.CommandLine.{parse_command_line}
use vpn_mgr.Help.{print_version, print_help}
use vpn_mgr.OpenVpn.{open_vpn_up}
use vpn_mgr.Ppp.{Ready}
use vpn_mgr.PppSsh.{ppp_ssh_vpn_up}
use vpn_mgr.Process.{
  Flags, Read, Stream, sigterm, Env, M, ◌>>=◌, ◌>>◌, pure, emit, put_flags, ask_number, get_euid,
  print, kill_group,
}
use vpn_mgr.RunCommand.Format.{find_commands, get_command_path}
use vpn_mgr.SslClient.{Session, ppp_ssl_client_vpn_up}
use vpn_mgr.SslServer.Connections.{ServerEvent, ssl_server}
use vpn_mgr.Ssh.Session.{ssh_vpn_up}
use vpn_mgr.Vpn.{
  Vpn, Action, act_config, act_add, act_delete, act_list, act_connect, act_server, act_protocols,
  act_version, act_help,
}
use vpn_mgr.VpnConfig.Files.{add_config, list_configs, delete_config}
use vpn_mgr.VpnConfig.Read.{read_config}
use vpn_mgr.VpnConfig.Write.{write_config}
use vpn_mgr.Wireguard.{wireguard_up}

-- What the loops of the program read from outside while it runs.
pub record Inputs : Type 0 where
  pub terminal : List Read
  pub ppp : List Ready
  pub server : List ServerEvent
  pub session : Stream → Session
  pub is_user : String → Bool

-- The programs that are not found, each with a space behind it.
unfoldable pub missing : List (String × String) → List String → String
missing found [] = ""
missing found (item ∷ items) =
    (if valid (get_command_path found item) then "" else item <> " ") <> missing found items

module _ (env : Env) where
  unfoldable pub display_protocol_support : String → String → M (Unit {0})
  display_protocol_support name programs s =
      let lacks = missing s.found (env.tokens programs ",") in
      emit
        (print (
          if valid lacks
          then "  " <> name <> " NOT supported. " <> lacks <> " missing\n"
          else "  " <> name <> " supported\n"))
        s

  unfoldable pub display_supported_protocols : M (Unit {0})
  display_supported_protocols =
      emit (print "Available protocols:\n")
      >> display_protocol_support "wireguard" "ip,wg,route"
      >> display_protocol_support "wireguard via boringtun" "ip,wg,route,boringtun-cli"
      >> display_protocol_support "wireguard via wireguard-go" "ip,wg,route,wireguard-go"
      >> display_protocol_support "openvpn" "openvpn"
      >> display_protocol_support "ssh-native" "ip,ssh,route"
      >> display_protocol_support "ssh-ppp" "pppd,ssh,route"
      >> display_protocol_support "tls/ssl-ppp" "pppd,route"

  -- The kinds of VPN, by the URL's first item.
  unfoldable pub start_vpn : Inputs → String → Vpn → M (Unit {0})
  start_vpn i token v =
      if case_eq token "wg"
      then wireguard_up env v i.terminal
      else if case_eq token "ssh"
      then ssh_vpn_up env v
      else if case_eq token "openvpn"
      then open_vpn_up env v
      else if case_eq token "ovpn"
      then open_vpn_up env v
      else if case_eq token "pssh"
      then ppp_ssh_vpn_up env v i.ppp
      else if case_eq token "pppssh"
      then ppp_ssh_vpn_up env v i.ppp
      else if case_eq token "pssl"
      then ppp_ssl_client_vpn_up env i.session v i.ppp
      else if case_eq token "pppssl"
      then ppp_ssl_client_vpn_up env i.session v i.ppp
      else if case_eq token "ptls"
      then ppp_ssl_client_vpn_up env i.session v i.ppp
      else if case_eq token "ppptls"
      then ppp_ssl_client_vpn_up env i.session v i.ppp
      else emit (print ("~rERROR~0: unknown vpn type '" <> token <> "'\n"))

  unfoldable pub connect : Inputs → Vpn → M (Unit {0})
  connect i v = do
    v' ← (if valid v.server then pure v else read_config env v)
    if valid v'.server
        then start_vpn i (env.get_token v'.server ":").0 v'
        else emit (
            print
              "~rERROR~0: no Server URL given. URL must begin with one of: 'wg:, ssh:, openvpn:, ovpn:, pppssh:, pssh:, pppssh: or ppptls:'\n")

  -- The `switch` on the action.
  unfoldable pub perform : Inputs → Vpn → Action → M (Unit {0})
  perform i v act_config = write_config env v
  perform i v act_protocols = display_supported_protocols
  perform i v act_list = list_configs env
  perform i v act_add = add_config env v >> pure tt
  perform i v act_delete = delete_config env v
  perform i v act_connect = connect i v
  perform i v act_server =
      if case_prefix v.server "wg:"
      then wireguard_up env v i.terminal
      else ssl_server env i.is_user v i.server
  perform i v act_version = print_version
  perform i v act_help = print_help

  -- `GlobalFlags` at the start: `sudo` and `su` at the remote end, and here too unless the
  -- effective user is root.
  unfoldable pub start_flags : ℕ → Flags
  start_flags euid =
      let user = not (eqb euid 0) in
      record {
        exit = false;
        su = user;
        sudo = user;
        remote_su = true;
        remote_sudo = true;
        nodns = false;
        debug = false;
        verbose = false;
      }

  unfoldable pub perform_parsed : Inputs → Option Vpn → M (Unit {0})
  perform_parsed i none = pure tt
  perform_parsed i (some v) = perform i v v.action

  unfoldable pub main : Inputs → List String → M (Unit {0})
  main i args = do
    euid ← ask_number env get_euid
    put_flags (start_flags euid)
    v ← parse_command_line env args
    find_commands env
        "su,sudo,modprobe,ip,wg,ifconfig,route,ssh,wg,openvpn,pppd,chmod,boringtun-cli,wireguard-go,mv,kill"
    perform_parsed i v
    emit (kill_group "" sigterm)
