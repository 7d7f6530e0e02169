-- ===== src/PppSsh.antt =====
-- pppd over ssh (pppssh.c).
use vpn_mgr.Base.{String, ◌<>◌, true, not, ◌||◌, Option, none, some, List, if◌then◌else◌}
use vpn_mgr.Base.Chars.{show_int}
use vpn_mgr.Base.Text.{valid}
use vpn_mgr.Ppp.{Ready, pppd_options, pppd_process}
use vpn_mgr.Process.{
  Stream, Env, M, ◌>>=◌, ◌>>◌, pure, emit, get_flags, ask_text, print, user_name, host_name,
}
use vpn_mgr.RunCommand.Format.{CmdFlags, no_flags}
use vpn_mgr.Ssh.Remote.{ssh_vpn_run_command, ssh_host_find_command}
use vpn_mgr.Ssh.Session.{ssh_vpn_validate, ssh_vpn_connect}
use vpn_mgr.Vpn.{Vpn}

-- The remote end is the server.
abbrev pub with_remote_address : Vpn → Vpn
with_remote_address v =
    if valid v.remote_address then v else record v { remote_address = "172.16.0.1" }

-- The command line of the remote pppd.
unfoldable pub remote_pppd : String → Vpn → String → CmdFlags → String
remote_pppd cmd v id f =
    cmd
    <> " "
    <> show_int v.line_speed
    <> " ipparam '"
    <> id
    <> "' "
    <> v.remote_address
    <> ": "
    <> pppd_options
    <> (if f.su || f.sudo then " noauth" else "")

module _ (env : Env) where
  unfoldable pub client_name : Vpn → M String
  client_name v = if valid v.client_id then pure v.client_id else do
    user ← ask_text env user_name
    host ← ask_text env host_name
    pure (user <> "@" <> host)

  unfoldable pub run_remote : Vpn → List Ready → Option Stream → M (Unit {0})
  run_remote v events none = pure tt
  run_remote v events (some s) = do
    (found, s1) ← ssh_host_find_command env s "pppd" v.remote_search_path
    let cmd = if valid found then found else "pppd"
    id ← client_name v
    g ← get_flags
    let f = record no_flags { nosync = true; ssh = true; su = g.remote_su; sudo = g.remote_sudo }
    (_, s2) ← ssh_vpn_run_command env s1 (remote_pppd cmd (with_remote_address v) id f) f
    pppd_process env (with_remote_address v) s2 events
    pure tt

  unfoldable pub ppp_ssh_vpn_up : Vpn → List Ready → M (Unit {0})
  ppp_ssh_vpn_up v events = do
    fine ← ssh_vpn_validate env v
    if not fine
        then emit (
            print (
              "'" <> v.server
              <> "' does not seem to be configured in the ~/.ssh/config file. Please setup this connection\n"))
        else ssh_vpn_connect env v "" >>= run_remote v events
