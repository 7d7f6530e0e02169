-- ===== src/Orderly/Saved.antt =====
-- Saved configurations (vpn_config.c).
use vpn_mgr.Base.{ℕ, String, ◌≡◌, refl, ◌∙◌, Option, none, some, List, [], ◌∷◌, arith}
use vpn_mgr.Process.Orderly.{Orderly, >>=-Orderly, pure-Orderly, emit-Orderly, orderly_rules}
use vpn_mgr.Process.{Env, Flags, Read, Stream, ◌>>=◌, emit}
use vpn_mgr.Vpn.{Vpn, vpn_ctx_create}
use vpn_mgr.VpnConfig.Files.{
  path_valid, keep_copy, add_config, list_context, list_paths, list_configs,
}
use vpn_mgr.VpnConfig.Read.{
  Conf, set_flags, apply_pair, apply_pairs, read_config_line, read_config_lines, read_stream,
  read_config,
}
use vpn_mgr.VpnConfig.Write.{write_all, write_pieces, write_config}

-- The flags that no configuration changes.
record Settled (f g : Flags) : Type 0 where
  exit : g.exit ≡ f.exit
  nodns : g.nodns ≡ f.nodns
  debug : g.debug ≡ f.debug
  verbose : g.verbose ≡ f.verbose

chain : (f g h : Flags) → Settled f g → Settled g h → Settled f h
chain f g h p q = record {
  exit = q.exit ∙ p.exit;
  nodns = q.nodns ∙ p.nodns;
  debug = q.debug ∙ p.debug;
  verbose = q.verbose ∙ p.verbose;
}

set_flags-Settled : (key value : String) (f : Flags) → Settled f (set_flags key value f)
unfolding set_flags
set_flags-Settled key value f = record {
  exit = ground arith;
  nodns = ground arith;
  debug = ground arith;
  verbose = ground arith;
}

module _ (env : Env) where
  apply_pairs-Settled :
      (ps : List (String × String)) (c : Conf) → Settled c.flags (apply_pairs env ps c).flags
  unfolding apply_pairs apply_pair
  apply_pairs-Settled [] c = record { exit = refl; nodns = refl; debug = refl; verbose = refl }
  apply_pairs-Settled ((key, value) ∷ ps) c =
      let c' = apply_pair env key value c in
      chain c.flags c'.flags _ (set_flags-Settled key value c.flags) (apply_pairs-Settled ps c')

  read_config_lines-Settled :
      (reads : List Read) (c : Conf) → Settled c.flags (read_config_lines env reads c).flags
  unfolding read_config_lines read_config_line
  read_config_lines-Settled [] c = record {
    exit = refl;
    nodns = refl;
    debug = refl;
    verbose = refl;
  }
  read_config_lines-Settled (r ∷ reads) c =
      let c' = read_config_line env (env.trim_right r.line) c in
      chain c.flags c'.flags _ (apply_pairs-Settled (env.pairs (env.trim_right r.line)) c)
        (read_config_lines-Settled reads c')

  read_stream-Orderly : (v : Vpn) (s : Option Stream) → Orderly (read_stream env v s)
  unfolding read_stream ◌>>=◌
  read_stream-Orderly v none = pure-Orderly v
  read_stream-Orderly v (some file) = record {
    at = λ s.
        let same = read_config_lines-Settled file.reads (record { vpn = v; flags = s.flags }) in
        (
          tt,
          record {
            found = refl;
            nodns = same.nodns;
            debug = same.debug;
            verbose = same.verbose;
            exit = λ h. same.exit ∙ h;
            ran = ([], refl);
          },
        );
  }

  pub read_config-Orderly : (v : Vpn) → Orderly (read_config env v)
  unfolding read_config
  read_config-Orderly v = search (orderly_rules, read_stream-Orderly) depth 12

  write_all-Orderly : (id : ℕ) (pieces : List String) → Orderly (write_all id pieces)
  unfolding write_all
  write_all-Orderly id [] = pure-Orderly tt
  write_all-Orderly id (p ∷ pieces) =
      >>=-Orderly (emit _) _ (emit-Orderly _) (λ _. write_all-Orderly id pieces)

  write_pieces-Orderly :
      (pieces : List String) (s : Option Stream) → Orderly (write_pieces env pieces s)
  unfolding write_pieces
  write_pieces-Orderly pieces none = pure-Orderly tt
  write_pieces-Orderly pieces (some s) = search (orderly_rules, write_all-Orderly) depth 12

  pub write_config-Orderly : (v : Vpn) → Orderly (write_config env v)
  unfolding write_config
  write_config-Orderly v = search (orderly_rules, write_pieces-Orderly) depth 14

  path_valid-Orderly : (path : String) → Orderly (path_valid env path)
  unfolding path_valid
  path_valid-Orderly path = search orderly_rules depth 16

  keep_copy-Orderly : (path copy : String) → Orderly (keep_copy env path copy)
  unfolding keep_copy
  keep_copy-Orderly path copy = search (orderly_rules, path_valid-Orderly) depth 14

  pub add_config-Orderly : (v : Vpn) → Orderly (add_config env v)
  unfolding add_config
  add_config-Orderly v = search (orderly_rules, keep_copy-Orderly, write_config-Orderly) depth 18

  list_context-Orderly : (v : Option Vpn) → Orderly (list_context env v)
  unfolding list_context
  list_context-Orderly none = pure-Orderly tt
  list_context-Orderly (some v) = search (orderly_rules, read_config-Orderly) depth 12

  vpn_ctx_create-Orderly : (name : String) → Orderly (vpn_ctx_create "" name "")
  unfolding vpn_ctx_create
  vpn_ctx_create-Orderly name = pure-Orderly _

  list_paths-Orderly : (paths : List String) → Orderly (list_paths env paths)
  unfolding list_paths
  list_paths-Orderly [] = pure-Orderly tt
  list_paths-Orderly (path ∷ paths) =
      >>=-Orderly _ _
        (>>=-Orderly _ _ (vpn_ctx_create-Orderly (env.rtrunc_char (env.base_name path) "."))
          list_context-Orderly)
        (λ _. list_paths-Orderly paths)

  pub list_configs-Orderly : Orderly (list_configs env)
  unfolding list_configs
  list_configs-Orderly = search (orderly_rules, list_paths-Orderly) depth 12
