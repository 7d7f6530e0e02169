-- ===== src/VpnConfig/Saved.antt =====
-- What `AddConfig` saves (vpn_config.c).
use vpn_mgr.Base.{ℕ, String, ◌<>◌, ◌≡◌, refl, ◌∙◌, ap, ◌⊎◌, some, List, ◌∷◌}
use vpn_mgr.Base.Text.{concat}
use vpn_mgr.Process.{Env, Flags, State, Stream, Event, Res, ret, pure, ◌>>=◌, open_stream, make_dir}
use vpn_mgr.Vpn.{Vpn}
use vpn_mgr.VpnConfig.Files.{conf_dir, add_config}
use vpn_mgr.VpnConfig.Quiet.{after-Quiet, emit-Quiet, keep_copy-Quiet, make_dir-Mute}
use vpn_mgr.VpnConfig.Write.{config_pieces, conf_path, write_config}
use vpn_mgr.VpnConfig.Written.{file_text, file_text-write_config, write_config_ret}

-- A file's path, or the path of the copy that is made of it.
abbrev pub Kept : String → String → String → Type 0
Kept path copy kept = (kept ≡ path) ⊎ (kept ≡ copy)

-- The context that is saved: the one that was given, but for the paths of the three files that
-- may be copied.
pub record Saved (home : String) (v w : Vpn) : Type 0 where
  pub rest : w ≡ record v {
    client_cert = w.client_cert;
    client_key = w.client_key;
    verify_cert = w.verify_cert;
  }
  pub client_cert : Kept v.client_cert (conf_dir home v.name <> v.name <> ".crt") w.client_cert
  pub client_key : Kept v.client_key (conf_dir home v.name <> v.name <> ".key") w.client_key
  pub verify_cert : Kept v.verify_cert (conf_dir home v.name <> v.name <> ".server") w.verify_cert

-- A call that began with the flags f and the text before in the stream id returns the context that
-- it saved there.
pub record Stored (home : String) (v : Vpn) (id : ℕ) (f : Flags) (before : String)
    (r : Res Vpn × State) : Type 0 where
  pub value : Vpn
  pub returns : r.0 ≡ ret value
  pub saved : Saved home v value
  pub text : file_text id r.1.trace ≡ before <> concat (config_pieces (home <> "/") value f)

module _ (env : Env) (v : Vpn) (file : Stream) where
  -- The stream that the configuration is written to.
  abbrev pub Opens : Type 0
  Opens =
      (t : List Event)
      → env.stream (open_stream (conf_path (env.home_dir <> "/") v.name) "w" ∷ t) ≡ some file

  finish :
      (w : Vpn) (u : State) (f : Flags) (before : String)
      → Opens
      → w.name ≡ v.name
      → Saved env.home_dir v w
      → u.flags ≡ f
      → file_text file.id u.trace ≡ before
      → Stored env.home_dir v file.id f before ((write_config env w >>= λ _. pure w) u)
  unfolding ◌>>=◌ pure
  finish w u f before opens n h p q =
      let o =
        ap
          (λ name. env.stream (
            open_stream (conf_path (env.home_dir <> "/") name) "w"
            ∷ make_dir (conf_path (env.home_dir <> "/") name) "0700"
            ∷ u.trace))
          n
        ∙ opens _ in
      record {
        value = w;
        returns = rw (write_config_ret env w u file o) refl;
        saved = h;
        text = rw (write_config_ret env w u file o) (
            file_text-write_config env w u file o
            ∙ (ap (λ b. b <> concat (config_pieces (env.home_dir <> "/") w u.flags)) q
                ∙ ap (λ g. before <> concat (config_pieces (env.home_dir <> "/") w g)) p));
      }

  -- If the configuration's file can be opened, `AddConfig` returns a saved context, and the text
  -- written to the file is that context's.
  pub add_config-Stored :
      (s : State)
      → Opens
      → Stored env.home_dir v file.id s.flags (file_text file.id s.trace) (add_config env v s)
  unfolding add_config
  add_config-Stored s opens =
      let G = Stored env.home_dir v file.id s.flags (file_text file.id s.trace) in
      after-Quiet _ G _ _ s (emit-Quiet _ (make_dir-Mute _ _)) λ _ u0 _ f0 t0.
        after-Quiet _ G _ _ u0 (keep_copy-Quiet env _ _) λ cert u1 c1 f1 t1.
          after-Quiet _ G _ _ u1 (keep_copy-Quiet env _ _) λ key u2 c2 f2 t2.
            after-Quiet _ G _ _ u2 (keep_copy-Quiet env _ _) λ verify u3 c3 f3 t3.
              finish (record v { client_cert = cert; client_key = key; verify_cert = verify }) u3
                s.flags (file_text file.id s.trace) opens refl
                (record { rest = refl; client_cert = c1; client_key = c2; verify_cert = c3 })
                (f3 ∙ f2 ∙ f1 ∙ f0) (t3 _ ∙ t2 _ ∙ t1 _ ∙ t0 _)
