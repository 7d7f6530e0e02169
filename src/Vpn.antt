-- ===== src/Vpn.antt =====
-- `TVpn` and `VpnCtxCreate` (vpn_ctx.h, vpn_ctx.c). A NULL text field is the empty text: the
-- program tests these fields by `StrValid` and concatenates them, which treats both alike.
pub mod Context
use vpn_mgr.Base.{ℕ, String, ◌<>◌, Bool, false, Option, none, some, ◌==◌, if◌then◌else◌}
use vpn_mgr.Base.Text.{valid}
use vpn_mgr.Process.{M, ◌>>◌, pure, emit, print}

-- The ACT_ constants, of which one at a time is set.
pub data Action : Type 0 where
  act_config act_add act_delete act_list act_connect act_server : Action
  act_protocols act_version act_help : Action

-- `tcp` and `verify_peer` are the bits VPN_TCP and VPN_VERIFY_PEER of `Flags`.
pub record Vpn : Type 0 where
  pub action : Action
  pub tcp : Bool
  pub verify_peer : Bool
  pub line_speed : ℕ
  pub mtu : ℕ
  pub timeout : ℕ
  pub name : String
  pub dev : String
  pub remote_dev : String
  pub transport : String
  pub server : String
  pub server_address : String
  pub conf_file : String
  pub up_file : String
  pub down_file : String
  pub local_address : String
  pub remote_address : String
  pub allowed_ips : String
  pub remote_allowed_ips : String
  pub user_name : String
  pub password : String
  pub client_cert : String
  pub client_key : String
  pub verify_cert : String
  pub pre_shared_key : String
  pub priv_sep_user : String
  pub priv_sep_group : String
  pub ciphers : String
  pub client_id : String
  pub dns : String
  pub ppp_auth : String
  pub server_auth : String
  pub remote_search_path : String

-- The chain of `strcmp` on the action's name.
unfoldable pub action_of : String → Action
action_of a =
    if a == "conf"
    then act_config
    else if a == "config"
    then act_config
    else if a == "add"
    then act_add
    else if a == "del"
    then act_delete
    else if a == "delete"
    then act_delete
    else if a == "server"
    then act_server
    else if a == "list"
    then act_list
    else if a == "protocols"
    then act_protocols
    else if a == "version"
    then act_version
    else if a == "help"
    then act_help
    else act_connect

-- The list of up or down scripts, the one for a named connection first.
abbrev pub scripts : String → String → String
scripts name ext =
    (if valid name then "/etc/vpn_mgr/" <> name <> "." <> ext <> ":" else "")
    <> "/etc/vpn_mgr/default."
    <> ext

-- The context after `calloc` and the default values.
unfoldable pub fresh : Action → String → String → Vpn
fresh action name server = record {
  action = action;
  tcp = false;
  verify_peer = false;
  line_speed = 4000000;
  mtu = 0;
  timeout = 0;
  name = name;
  dev = "";
  remote_dev = "";
  transport = "";
  server = server;
  server_address = "";
  conf_file = "";
  up_file = scripts name "up";
  down_file = scripts name "down";
  local_address = "";
  remote_address = "";
  allowed_ips = "";
  remote_allowed_ips = "";
  user_name = "";
  password = "";
  client_cert = "";
  client_key = "";
  verify_cert = "";
  pre_shared_key = "";
  priv_sep_user = "nobody";
  priv_sep_group = "nobody";
  ciphers = "";
  client_id = "";
  dns = "";
  ppp_auth = "";
  server_auth = "";
  remote_search_path = "/sbin:/bin:/usr/sbin:/usr/bin:/usr/local/sbin:/usr/local/bin";
}

-- NULL, after a message, for an `add` without a URL.
unfoldable pub vpn_ctx_create : String → String → String → M (Option Vpn)
unfolding action_of fresh
vpn_ctx_create action name server = elim (action_of action) [
  | act_add ↦
      if valid server
      then pure (some (fresh act_add name server))
      else emit (print "ERROR: no URL given for add command\n") >> pure none
  | other ↦ pure (some (fresh other name server))
]
