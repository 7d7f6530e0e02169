-- ===== src/Main/Upkeep.antt =====
-- The actions that keep the saved configurations or print texts (main.c, vpn_config.c, help.c).
use vpn_mgr.Base.{String, ◌≡◌, refl, Option, none, some, List, [], ◌∷◌}
use vpn_mgr.Help.{print_version, print_all, print_help}
use vpn_mgr.Main.{Inputs, display_protocol_support, display_supported_protocols, perform}
use vpn_mgr.Process.Completes.{
  Completes, Untouched, pure-Completes, emit-Completes, >>=-Completes, completes_rules,
}
use vpn_mgr.Process.{Env, Stream, State, ◌>>=◌, ret, emit}
use vpn_mgr.Vpn.{
  Vpn, Action, act_config, act_add, act_delete, act_server, act_list, act_protocols, act_version,
  act_help, act_connect, vpn_ctx_create,
}
use vpn_mgr.VpnConfig.Files.{
  path_valid, keep_copy, add_config, list_context, list_paths, list_configs, delete_config,
}
use vpn_mgr.VpnConfig.Read.{read_config, read_stream}
use vpn_mgr.VpnConfig.Write.{write_all, write_pieces, write_config}

-- Every action but those that set up a link.
abbrev pub Upkeep : Action → Type 0
Upkeep act_connect = ⊥
Upkeep act_server = ⊥
Upkeep _ = Unit

print_all-Completes : (texts : List String) → Completes (print_all texts)
unfolding print_all
print_all-Completes [] = pure-Completes tt
print_all-Completes (t ∷ texts) =
    >>=-Completes (emit _) _ (emit-Completes _) (λ _. print_all-Completes texts)

write_all-Completes : (id : _) (pieces : List String) → Completes (write_all id pieces)
unfolding write_all
write_all-Completes id [] = pure-Completes tt
write_all-Completes id (p ∷ pieces) =
    >>=-Completes (emit _) _ (emit-Completes _) (λ _. write_all-Completes id pieces)

write_pieces-Completes :
    (env : Env) (pieces : List String) (s : Option Stream) → Completes (write_pieces env pieces s)
unfolding write_pieces
write_pieces-Completes env pieces none = pure-Completes tt
write_pieces-Completes env pieces (some s) = search (completes_rules, write_all-Completes) depth 12

read_stream-Completes : (env : Env) (v : Vpn) (s : Option Stream) → Completes (read_stream env v s)
unfolding read_stream
read_stream-Completes env v none = pure-Completes v
read_stream-Completes env v (some s) = search completes_rules depth 12

vpn_ctx_create-Completes : (name : String) → Completes (vpn_ctx_create "" name "")
unfolding vpn_ctx_create
vpn_ctx_create-Completes name = pure-Completes _

module _ (env : Env) where
  write_config-Completes : (v : Vpn) → Completes (write_config env v)
  unfolding write_config
  write_config-Completes v = search (completes_rules, write_pieces-Completes) depth 12

  read_config-Completes : (v : Vpn) → Completes (read_config env v)
  unfolding read_config
  read_config-Completes v = search (completes_rules, read_stream-Completes) depth 12

  path_valid-Completes : (path : String) → Completes (path_valid env path)
  unfolding path_valid
  path_valid-Completes path = search completes_rules depth 14

  keep_copy-Completes : (path copy : String) → Completes (keep_copy env path copy)
  unfolding keep_copy
  keep_copy-Completes path copy = search (completes_rules, path_valid-Completes) depth 12

  add_config-Completes : (v : Vpn) → Completes (add_config env v)
  unfolding add_config
  add_config-Completes v =
      search (completes_rules, keep_copy-Completes, write_config-Completes) depth 16

  list_context-Completes : (v : Option Vpn) → Completes (list_context env v)
  unfolding list_context
  list_context-Completes none = pure-Completes tt
  list_context-Completes (some v) = search (completes_rules, read_config-Completes) depth 12

  list_paths-Completes : (paths : List String) → Completes (list_paths env paths)
  unfolding list_paths
  list_paths-Completes [] = pure-Completes tt
  list_paths-Completes (path ∷ paths) =
      >>=-Completes
        (vpn_ctx_create "" (env.rtrunc_char (env.base_name path) ".") "" >>= list_context env) _
        (>>=-Completes (vpn_ctx_create "" (env.rtrunc_char (env.base_name path) ".") "") _
          (vpn_ctx_create-Completes (env.rtrunc_char (env.base_name path) "."))
          list_context-Completes)
        (λ _. list_paths-Completes paths)

  list_configs-Completes : Completes (list_configs env)
  unfolding list_configs
  list_configs-Completes = search (completes_rules, list_paths-Completes) depth 12

  display_protocol_support-Completes :
      (name programs : String) → Completes (display_protocol_support env name programs)
  unfolding display_protocol_support emit
  display_protocol_support-Completes name programs = record {
    at = λ s. (tt, refl, record { ran = refl; found = refl; passwords = refl; active = refl });
  }

  display_supported_protocols-Completes : Completes (display_supported_protocols env)
  unfolding display_supported_protocols
  display_supported_protocols-Completes =
      search (completes_rules, display_protocol_support-Completes) depth 16

  perform-Completes : (i : Inputs) (v : Vpn) (a : Action) → Upkeep a → Completes (perform env i v a)
  unfolding perform
  perform-Completes i v act_config u = write_config-Completes v
  perform-Completes i v act_add u = search (completes_rules, add_config-Completes) depth 12
  perform-Completes i v act_delete u = unfold delete_config in emit-Completes _
  perform-Completes i v act_list u = list_configs-Completes
  perform-Completes i v act_protocols u = display_supported_protocols-Completes
  perform-Completes i v act_version u = unfold print_version in emit-Completes _
  perform-Completes i v act_help u = unfold print_help in print_all-Completes _
  perform-Completes i v act_connect u = absurd u
  perform-Completes i v act_server u = absurd u

  -- Every action of `main` but `connect` and `server` returns from any state and with any
  -- context: it neither ends the process nor faults, calls `RunCommand` for no command, and
  -- leaves the programs that were found, the passwords and the stream that a signal would end
  -- as they were.
  pub perform-returns :
      (i : Inputs) (v : Vpn) (a : Action) (s : State)
      → Upkeep a
      → ((perform env i v a s).0 ≡ ret tt) × Untouched s (perform env i v a s).1
  perform-returns i v a s u = let (_, done, same) = (perform-Completes i v a u).at s in (done, same)
