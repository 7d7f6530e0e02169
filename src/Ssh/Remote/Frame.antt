-- ===== src/Ssh/Remote/Frame.antt =====
-- What a conversation with the remote shell changes in this process (ssh.c).
use vpn_mgr.Base.{ℕ, zero, suc, ◌-◌, eqb, leb, String, List, [], ◌∷◌}
use vpn_mgr.Base.Chars.{str_len}
use vpn_mgr.Base.Text.{begins}
use vpn_mgr.Common.Frame.{deliver-Keeps}
use vpn_mgr.Common.{deliver}
use vpn_mgr.Process.Keeps.{Keeps, keeps}
use vpn_mgr.Process.Respects.{Respects, pure-Respects, if-Respects, >>=-Respects, respects_rules}
use vpn_mgr.Process.{Env, M, Read, Stream, ◌>>=◌}
use vpn_mgr.RunCommand.Format.{CmdFlags}
use vpn_mgr.RunCommand.Output.Frame.{read_loop-Keeps}
use vpn_mgr.Ssh.Remote.{
  debug_print, Synced, found_key, awaits, after_sync, send_sync, sync_line, sync_loop, ssh_vpn_sync,
  take_bytes, read_bytes_left, format_remote, send_command, run_command_try, remote_allowed,
  ssh_vpn_run_command, remote_dev_loop, ssh_get_remote_dev,
}

debug_print-Keeps : (line : String) → Respects Keeps (debug_print line)
unfolding debug_print
debug_print-Keeps line = search (respects_rules, keeps) depth 12

after_sync-Keeps :
    (next : Synced) (reads : List Read) (again : String → M (List Read))
    → ((key : String) → Respects Keeps (again key))
    → Respects Keeps (after_sync next reads again)
unfolding after_sync
after_sync-Keeps found_key reads again h = pure-Respects keeps reads
after_sync-Keeps (awaits key) reads again h = h key

take_bytes-Keeps : (n : ℕ) (reads : List Read) → Respects Keeps (take_bytes n reads)
unfolding take_bytes
take_bytes-Keeps n [] = pure-Respects keeps []
take_bytes-Keeps n (r ∷ reads) = if-Respects keeps (eqb n 0) _ _ (pure-Respects keeps _) (
    >>=-Respects keeps (deliver r) _ (deliver-Keeps r) λ _.
      if-Respects keeps (leb (str_len r.line) n) _ _ (take_bytes-Keeps (n - str_len r.line) reads)
        (pure-Respects keeps _))

module _ (env : Env) where
  send_sync-Keeps : (id : ℕ) → Respects Keeps (send_sync env id)
  unfolding send_sync
  send_sync-Keeps id = search (respects_rules, keeps, debug_print-Keeps) depth 14

  sync_line-Keeps : (id : ℕ) (key line : String) → Respects Keeps (sync_line env id key line)
  unfolding sync_line
  sync_line-Keeps id key line =
      search (respects_rules, keeps, send_sync-Keeps, debug_print-Keeps) depth 14

  sync_loop-Keeps :
      (id : ℕ) (reads : List Read) (key : String) → Respects Keeps (sync_loop env id reads key)
  unfolding sync_loop
  sync_loop-Keeps id [] key = pure-Respects keeps []
  sync_loop-Keeps id (r ∷ reads) key = >>=-Respects keeps (deliver r) _ (deliver-Keeps r) λ _.
      >>=-Respects keeps (sync_line env id key r.line) _ (sync_line-Keeps id key r.line)
        λ next. after_sync-Keeps next reads _ (sync_loop-Keeps id reads)

  read_bytes_left-Keeps :
      (id : ℕ) (reads : List Read) → Respects Keeps (read_bytes_left env id reads)
  unfolding read_bytes_left
  read_bytes_left-Keeps id reads = search (respects_rules, keeps, take_bytes-Keeps) depth 12

  pub ssh_vpn_sync-Keeps : (s : Stream) → Respects Keeps (ssh_vpn_sync env s)
  unfolding ssh_vpn_sync
  ssh_vpn_sync-Keeps s =
      search (respects_rules, keeps, send_sync-Keeps, sync_loop-Keeps, read_bytes_left-Keeps) depth
        14

  format_remote-Keeps : (c : String) (f : CmdFlags) → Respects Keeps (format_remote env c f)
  unfolding format_remote ◌>>=◌
  format_remote-Keeps c f = record { at = λ s. keeps.same s }

  send_command-Keeps :
      (s : Stream) (c : String) (f : CmdFlags) → Respects Keeps (send_command env s c f)
  unfolding send_command
  send_command-Keeps s c f =
      search (respects_rules, keeps, format_remote-Keeps, read_loop-Keeps) depth 18

  run_command_try-Keeps :
      (s : Stream) (c : String) (f : CmdFlags) → Respects Keeps (run_command_try env s c f)
  unfolding run_command_try
  run_command_try-Keeps s c f =
      search (respects_rules, keeps, ssh_vpn_sync-Keeps, send_command-Keeps) depth 18

  remote_allowed-Keeps : (f : CmdFlags) → Respects Keeps (remote_allowed env f)
  unfolding remote_allowed
  remote_allowed-Keeps f = search (respects_rules, keeps) depth 12

  pub ssh_vpn_run_command-Keeps :
      (s : Stream) (c : String) (f : CmdFlags) → Respects Keeps (ssh_vpn_run_command env s c f)
  unfolding ssh_vpn_run_command
  ssh_vpn_run_command-Keeps s c f =
      search (respects_rules, keeps, remote_allowed-Keeps, run_command_try-Keeps) depth 18

  remote_dev_loop-Keeps :
      (rounds : ℕ) (last : String) (reads : List Read)
      → Respects Keeps (remote_dev_loop env rounds last reads)
  unfolding remote_dev_loop
  remote_dev_loop-Keeps zero last reads = pure-Respects keeps _
  remote_dev_loop-Keeps (suc rounds) last [] = pure-Respects keeps _
  remote_dev_loop-Keeps (suc rounds) last (r ∷ reads) =
      >>=-Respects keeps (deliver r) _ (deliver-Keeps r) λ _.
        >>=-Respects keeps (debug_print _) _ (debug_print-Keeps _) λ _.
          if-Respects keeps (begins (env.trim_right r.line) "tun") _ _ (pure-Respects keeps _)
            (remote_dev_loop-Keeps rounds (env.trim_right r.line) reads)

  pub ssh_get_remote_dev-Keeps : (s : Stream) → Respects Keeps (ssh_get_remote_dev env s)
  unfolding ssh_get_remote_dev
  ssh_get_remote_dev-Keeps s = search (respects_rules, keeps, remote_dev_loop-Keeps) depth 14
