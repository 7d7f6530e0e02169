-- ===== src/VpnConfig/RoundTrip.antt =====
-- The reading of a line that `WriteConfig` writes (vpn_config.c), and what it needs of libUseful.
use Prim.Native.Char.{code}
use vpn_mgr.Base.{
  ℕ, String, ◌<>◌, ◌≡◌, refl, ◌∙◌, ap, Bool, true, false, not, ◌&&◌, List, [], ◌∷◌, Bool-cases, inl,
  inr, ltb, eqb, if◌then◌else◌,
}
use vpn_mgr.Base.Text.{valid, concat}
use vpn_mgr.Process.{Read, Env}
use vpn_mgr.VpnConfig.Read.{Conf, apply_pair, apply_pairs, read_config_lines}
use vpn_mgr.VpnConfig.Write.{saved_path, line, path_line, text_line}

-- The bytes of a text that is neither split nor stripped nor unquoted: printable, and neither a
-- space, a quote nor a backslash.
abbrev pub plain_code : ℕ → Bool
plain_code c =
    ltb 32 c && ltb c 127 && not (eqb c 34) && not (eqb c 39) && not (eqb c 92) && not (eqb c 96)

unfoldable pub is_plain : String → Bool
is_plain String.[] = true
is_plain (String.◌∷◌ c s) = plain_code (code c) && is_plain s

-- A configuration key: a plain text with no `=`.
unfoldable pub is_key : String → Bool
is_key String.[] = true
is_key (String.◌∷◌ c s) = plain_code (code c) && not (eqb (code c) b'=') && is_key s

-- What is relied on of libUseful, on a line that is a key, `=` and a plain value.
pub record ReadsLines (env : Env) : Type 0 where
  pub read_lines-nil : env.read_lines "" ≡ []
  pub read_lines-line :
      (key value rest : String)
      → is_key key ≡ true
      → is_plain value ≡ true
      → env.read_lines (line key value <> rest) ≡ line key value ∷ env.read_lines rest
  pub trim_right-line :
      (key value : String)
      → is_key key ≡ true
      → is_plain value ≡ true
      → env.trim_right (line key value) ≡ key <> "=" <> value
  pub pairs-entry :
      (key value : String)
      → is_key key ≡ true
      → is_plain value ≡ true
      → env.pairs (key <> "=" <> value) ≡ (key, value) ∷ []

-- A stream that gives a file's lines, with no signal while it is read.
unfoldable pub quiet_reads : List String → List Read
quiet_reads [] = []
quiet_reads (l ∷ more) = record { line = l; sigint = false } ∷ quiet_reads more

module _ (env : Env) where
  unfoldable pub read_text : String → Conf → Conf
  read_text text c = read_config_lines env (quiet_reads (env.read_lines text)) c

module _ (env : Env) (L : ReadsLines env) where
  pub read_text-line :
      (key value rest : String) (c : Conf)
      → is_key key ≡ true
      → is_plain value ≡ true
      → read_text env (line key value <> rest) c ≡ read_text env rest (apply_pair env key value c)
  unfolding read_text read_config_lines quiet_reads
  read_text-line key value rest c k p = rw (L.read_lines-line key value rest k p) (
      ap (λ t. go (env.pairs t)) (L.trim_right-line key value k p)
      ∙ ap go (L.pairs-entry key value k p))
    where
      go : List (String × String) → Conf
      go ps = read_config_lines env (quiet_reads (env.read_lines rest)) (apply_pairs env ps c)

  pub read_text-nil : (c : Conf) → read_text env (concat []) c ≡ c
  unfolding read_text read_config_lines quiet_reads concat
  read_text-nil c = rw L.read_lines-nil refl

  -- An optional line takes one state to another, where each of its two cases does.
  pub text_line-step :
      (key value : String) (more : List String) (c c' : Conf)
      → is_key key ≡ true
      → is_plain value ≡ true
      → (valid value ≡ true → apply_pair env key value c ≡ c')
      → (valid value ≡ false → c ≡ c')
      → read_text env (concat (text_line key value more)) c ≡ read_text env (concat more) c'
  unfolding concat
  text_line-step key value more c c' k p set skip = elim (Bool-cases (valid value)) [
    | inl full ↦
        rw full (
          read_text-line key value (concat more) c k p
          ∙ ap (read_text env (concat more)) (set full))
    | inr empty ↦ rw empty (ap (read_text env (concat more)) (skip empty))
  ]

  pub path_line-step :
      (key path : String) (more : List String) (c c' : Conf)
      → is_key key ≡ true
      → is_plain (saved_path (env.home_dir <> "/") path) ≡ true
      → (valid path ≡ true → apply_pair env key (saved_path (env.home_dir <> "/") path) c ≡ c')
      → (valid path ≡ false → c ≡ c')
      → read_text env (concat (path_line (env.home_dir <> "/") key path more)) c
        ≡ read_text env (concat more) c'
  unfolding concat
  path_line-step key path more c c' k p set skip = elim (Bool-cases (valid path)) [
    | inl full ↦ rw full (
        read_text-line key (saved_path (env.home_dir <> "/") path) (concat more) c k p
        ∙ ap (read_text env (concat more)) (set full))
    | inr empty ↦ rw empty (ap (read_text env (concat more)) (skip empty))
  ]

-- The value that is written, or the one that was there if none is.
abbrev pub keep : String → String → String
keep new old = if valid new then new else old
