-- ===== src/Examples/Shell.antt =====
-- Runs of the conversations with a shell, su and sudo.
use vpn_mgr.Base.{
  ◌+◌, ◌≡◌, refl, true, false, String, none, List, [], ◌∷◌, ◌++◌, inl, inr, ◌==◌, if◌then◌else◌,
}
use vpn_mgr.Base.Chars.{is_space, drop, str_len}
use vpn_mgr.Common.{deliver}
use vpn_mgr.Base.Text.{strip_prefix}
use vpn_mgr.Loops.{loops-cut}
use vpn_mgr.OpenVpn.{open_vpn_loop}
use vpn_mgr.Process.{◌>>=◌, Env, Read, Stream, ret, write}
use vpn_mgr.RunCommand.Format.{get_var, set_var}
use vpn_mgr.RunCommand.Launch.{drain}
use vpn_mgr.RunCommand.Output.Password.{stored, password_transact-again}
use vpn_mgr.RunCommand.Output.Verdict.{read_loop-decided}
use vpn_mgr.RunCommand.Output.{
  run_begin, run_okay, run_auth_fail, output_of, password_transact, store_password, count_attempt,
  get_password, ask_password, keep_password, read_loop,
}
use vpn_mgr.Sample.{sample_env, start, stream_of, trim_end}
use vpn_mgr.Ssh.Remote.Sync.{Resumed, ssh_vpn_sync_lem}
use vpn_mgr.Ssh.Remote.{
  ssh_vpn_sync, send_sync, sync_loop, sync_line, after_sync, debug_print, read_bytes_left,
  take_bytes,
}
use vpn_mgr.Ssh.Session.{process_loop}
use vpn_mgr.Vpn.Context.Laws.{vpn_ctx_destroy-none}
use vpn_mgr.Vpn.Context.{Pointer, null, text, vpn_ctx_destroy}
use vpn_mgr.Vpn.{Vpn, fresh, act_connect}
use vpn_mgr.Wireguard.{wait_for_user}

abbrev env : Env
env = sample_env (λ trace. none) (λ trace. true)

abbrev gives : String → Read
gives line = record { line = line; sigint = false }

abbrev stops : Read
stops = record { line = "last\n"; sigint = true }

abbrev home : Vpn
home = fresh act_connect "home" "ovpn:vpn.example.com"

loops-cut_example :
    (drain (gives "one\n" ∷ stops ∷ gives "two\n" ∷ []) ≡ drain (gives "one\n" ∷ stops ∷ []))
    × (wait_for_user env (gives "one\n" ∷ stops ∷ gives "two\n" ∷ [])
        ≡ wait_for_user env (gives "one\n" ∷ stops ∷ []))
    × (process_loop env (gives "one\n" ∷ stops ∷ gives "two\n" ∷ [])
        ≡ process_loop env (gives "one\n" ∷ stops ∷ []))
    × (open_vpn_loop env home (gives "one\n" ∷ stops ∷ gives "two\n" ∷ [])
        ≡ open_vpn_loop env home (gives "one\n" ∷ stops ∷ []))
loops-cut_example = loops-cut env stops (gives "two\n" ∷ []) refl home (gives "one\n" ∷ [])

abbrev welcome : List Read
welcome = gives "Welcome\n" ∷ gives "$ echo\n" ∷ []

abbrev shell : Stream
shell = stream_of 5 (welcome ++ gives "\n" ∷ gives "\n" ∷ gives "$a ls\n" ∷ [])

-- Of the shell's output, three bytes are there behind the key.
abbrev ready : Env
ready = record env { number = λ trace. 3 }

-- They are gone, and the rest of the line stays.
sync_run : (ssh_vpn_sync ready shell start).0 ≡ ret (record shell { reads = gives " ls\n" ∷ [] })
unfolding ssh_vpn_sync send_sync sync_loop sync_line after_sync debug_print read_bytes_left
    take_bytes drop str_len deliver sample_env trim_end is_space ◌>>=◌
sync_run = refl

ssh_vpn_sync_lem_example :
    Resumed shell (gives "\n" ∷ gives "$a ls\n" ∷ []) (ssh_vpn_sync ready shell start).0
unfolding sample_env trim_end is_space
ssh_vpn_sync_lem_example =
    ssh_vpn_sync_lem ready shell welcome (gives "\n") (gives "\n" ∷ gives "$a ls\n" ∷ []) start refl
      (((refl, refl), refl), (((refl, refl), refl), tt)) (refl, refl) refl (refl, (refl, tt)) refl

abbrev lecture : List Read
lecture = gives "We trust you\n" ∷ gives "\n" ∷ []

read_loop-decided_example :
    (read_loop env "root" "sudo" 5
      (lecture ++ gives "Sorry, try again\n" ∷ gives "vpn-mgr-cmd-run\n" ∷ [])
      run_begin
      start).0
    ≡ ret (run_auth_fail, gives "vpn-mgr-cmd-run\n" ∷ [])
unfolding sample_env trim_end is_space output_of strip_prefix
read_loop-decided_example =
    read_loop-decided env "root" "sudo" 5 lecture (gives "Sorry, try again\n")
      (gives "vpn-mgr-cmd-run\n" ∷ []) run_auth_fail start
      ((refl, inr (refl, inl refl)), ((refl, inr (refl, inr refl)), tt)) (refl, (refl, refl)) refl

-- Answers `secret` to every question.
abbrev typing : Env
typing = record env { text = λ trace. "secret" }

password_transact-again_example :
    let t = (password_transact typing "root" "sudo" 5 start).1 in
    password_transact typing "root" "sudo" 5 t ≡ (
      ret run_okay,
      record t {
        attempts = t.attempts + 1;
        trace = write 5 "\n" ∷ write 5 (stored typing "root" "sudo" 5 t) ∷ t.trace;
      },
    )
unfolding password_transact store_password count_attempt get_password ask_password keep_password
    get_var set_var sample_env ◌>>=◌
password_transact-again_example = password_transact-again typing "root" "sudo" 5 start refl refl

abbrev pointers : String → Pointer
pointers name = if name == "VerifyCert" then text else null

vpn_ctx_destroy-none_example : vpn_ctx_destroy pointers ≡ none
vpn_ctx_destroy-none_example = vpn_ctx_destroy-none pointers refl
