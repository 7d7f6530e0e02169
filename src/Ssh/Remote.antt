-- ===== src/Ssh/Remote.antt =====
-- The shell at the remote end: `SSHVpnSync`, `SSHVpnRunCommand`, `SSHHostFindCommand` and
-- `SSHGetRemoteDev` (ssh.c). Each gives the stream back with what is left to be read.
pub mod Sync
pub mod Taken
pub mod Frame
use vpn_mgr.Base.{
  ℕ, zero, suc, String, ◌<>◌, Bool, true, false, not, ◌&&◌, ◌||◌, List, [], ◌∷◌, ◌==◌, eqb, leb,
  ◌-◌, if◌then◌else◌,
}
use vpn_mgr.Base.Chars.{drop, str_len}
use vpn_mgr.Base.Text.{valid, begins}
use vpn_mgr.Common.{deliver, log_event}
use vpn_mgr.Process.{
  Read, Stream, Env, M, ◌>>=◌, ◌>>◌, pure, emit, get_flags, ask_text, ask_number, print, write,
  random_text, read_bytes, log_okay, log_error,
}
use vpn_mgr.RunCommand.Format.{CmdFlags, run_cmd_format}
use vpn_mgr.RunCommand.Output.{RunResult, run_begin, run_okay, read_loop}
use vpn_mgr.TunTap.{is_okay}

unfoldable pub debug_print : String → M (Unit {0})
debug_print line = do f ← get_flags; if f.debug then emit (print line) else pure tt

-- What is left behind the first n bytes. The handler runs for each read that gives some of them.
unfoldable pub take_bytes : ℕ → List Read → M (List Read)
take_bytes n [] = pure []
take_bytes n (r ∷ reads) =
    if eqb n 0
    then pure (r ∷ reads)
    else deliver r
      >> (if leb (str_len r.line) n
          then take_bytes (n - str_len r.line) reads
          else pure (record { line = drop n r.line; sigint = false } ∷ reads))

-- The ends of the loop of `SSHVpnSync`: the key was read, or FLAG_EXIT is set. Otherwise it goes
-- on, with a new key behind an empty line.
pub data Synced : Type 0 where
  found_key : Synced
  awaits : String → Synced

unfoldable pub after_sync : Synced → List Read → (String → M (List Read)) → M (List Read)
after_sync found_key reads again = pure reads
after_sync (awaits key) reads again = again key

module _ (env : Env) where
  unfoldable pub send_sync : ℕ → M String
  send_sync id = do
    key ← ask_text env random_text
    let line = "export PS1=\"\"; export PS2=\"\"; echo " <> key <> "\n"
    emit (write id line)
    debug_print ("SSH SYNC: SEND: " <> line)
    pure key

  unfoldable pub sync_line : ℕ → String → String → M Synced
  sync_line id key line =
      if not (valid line) then send_sync id >>= (λ key'. pure (awaits key')) else do
        let text = env.trim_left (env.trim_right line)
        debug_print ("SSH SYNC: [" <> text <> "] [" <> key <> "]\n")
        f ← get_flags
        pure (if text == key then found_key else if f.exit then found_key else awaits key)

  unfoldable pub sync_loop : ℕ → List Read → String → M (List Read)
  sync_loop id [] key = pure []
  sync_loop id (r ∷ reads) key = do
    deliver r
    next ← sync_line id key r.line
    after_sync next reads (λ key'. sync_loop id reads key')

  -- `STREAMReadBytes` gives what is there, up to 4096 bytes.
  unfoldable pub read_bytes_left : ℕ → List Read → M (List Read)
  read_bytes_left id reads = do
    count ← ask_number env (read_bytes id 4096)
    take_bytes (if leb count 4096 then count else 4096) reads

  -- The line that FLAG_DEBUG prints at the end is left out: it shows a buffer that was never set where
  -- nothing is read into it.
  unfoldable pub ssh_vpn_sync : Stream → M Stream
  ssh_vpn_sync s = do
    key ← send_sync s.id
    left ← sync_loop s.id s.reads key
    behind ← read_bytes_left s.id left
    pure (record s { reads = behind })

  unfoldable pub format_remote : String → CmdFlags → M String
  format_remote cmd f s = pure (run_cmd_format s.found "" cmd "" (record f { ssh = true })) s

  unfoldable pub send_command : Stream → String → CmdFlags → M (RunResult × Stream)
  send_command s cmd f = do
    text ← format_remote cmd f
    emit (write s.id text)
    emit (write s.id "\n")
    emit (print ("~rSSH REMOTE RUN COMMAND:~0 [" <> text <> "]\n"))
    if f.sudo || f.su
        then read_loop env "Remote" "su/sudo" s.id s.reads run_begin
          >>= (λ (result, reads). pure (result, record s { reads = reads }))
        else pure (run_okay, s)

  -- Whether the command was started, as far as that shows.
  unfoldable pub run_command_try : Stream → String → CmdFlags → M (Bool × Stream)
  run_command_try s cmd f = do
    s1 ← ssh_vpn_sync s
    (result, s2) ← (if valid cmd then send_command s1 cmd f else pure (run_begin, s1))
    s3 ← (if f.nosync then pure s2 else ssh_vpn_sync s2)
    pure (is_okay result, s3)

  -- Of `su` and `sudo`, what GlobalFlags allows at the remote end.
  unfoldable pub remote_allowed : CmdFlags → M CmdFlags
  remote_allowed f = do
    g ← get_flags
    pure (record f { su = f.su && g.remote_su; sudo = f.sudo && g.remote_sudo })

  -- A failure leads to a second try, without `sudo`.
  unfoldable pub ssh_vpn_run_command : Stream → String → CmdFlags → M (Bool × Stream)
  ssh_vpn_run_command s cmd flags = do
    f ← remote_allowed flags
    (started, s1) ← run_command_try s cmd f
    if started
        then pure (true, s1)
        else (emit (print "~yremote sudo failed, attempting su~0\n")
            >> run_command_try s1 cmd (record f { sudo = false }))

  -- `SSHHostParseLS`: the path of a line of `ls -l`, its ninth item, if it is the command's.
  unfoldable pub parse_ls : String → String → String
  parse_ls cmd line =
      if not (begins line "-")
      then ""
      else let token = (env.get_token (skip 8 line) "\\S").0 in
        if cmd == env.base_name token then token else ""
    where
      skip : ℕ → String → String
      skip zero text = text
      skip (suc n) text = skip n (env.get_token text "\\S").1

  unfoldable pub find_in_dirs : Stream → String → List String → M (String × Stream)
  find_in_dirs s cmd [] = pure ("", s)
  find_in_dirs s cmd (dir ∷ dirs) = do
    emit (write s.id ("ls -l -1 " <> dir <> "/" <> cmd <> "\n"))
    (line, left) ← read_answer s
    let path = parse_ls cmd (env.trim_right line)
    if valid path then pure (path, left) else find_in_dirs left cmd dirs
    where
      read_answer : Stream → M (String × Stream)
      read_answer t = elim t.reads [
        | [] ↦ pure ("", t)
        | r ∷ reads ↦ deliver r >> pure (r.line, record t { reads = reads })
      ]

  unfoldable pub ssh_host_find_command : Stream → String → String → M (String × Stream)
  ssh_host_find_command s cmd path = do
    (found, left) ← find_in_dirs s cmd (env.tokens path ":")
    (if valid found
        then log_event log_okay "SSH" ("remote command '" <> cmd <> "' found at '" <> found <> "'")
        else log_event log_error "SSH" ("remote command '" <> cmd <> "' not found in: " <> path))
    pure (found, left)

  -- The loop of `SSHGetRemoteDev`, with the rounds left and the line read last. Where the stream has
  -- ended the rounds that are left read nothing, and the line is NULL.
  unfoldable pub remote_dev_loop : ℕ → String → List Read → M (String × List Read)
  remote_dev_loop zero last reads = pure (last, reads)
  remote_dev_loop (suc rounds) last [] = pure ("", [])
  remote_dev_loop (suc rounds) last (r ∷ reads) = do
    deliver r
    let line = env.trim_right r.line
    debug_print ("SSH: SSHGetRemoveDev: readline [" <> line <> "]\n")
    if begins line "tun" then pure (line, reads) else remote_dev_loop rounds line reads

  unfoldable pub ssh_get_remote_dev : Stream → M (String × Stream)
  ssh_get_remote_dev s = do
    emit (write s.id "echo $SSH_TUNNEL\n")
    (dev, reads) ← remote_dev_loop 10 "" s.reads
    pure (dev, record s { reads = reads })
