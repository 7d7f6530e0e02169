-- ===== src/VpnConfig/Paths.antt =====
-- Paths between `SaveFilePath` and `ReadFileConf` (vpn_config.c).
use vpn_mgr.Base.{
  String, ◌<>◌, ◌≡◌, refl, ◌∙◌, sym, true, false, arith, ◌==◌, eq_iff, Option-cases, Bool-cases,
  inl, inr, ap,
}
use vpn_mgr.Base.Text.{
  valid, begins, strip_prefix, strip_prefix-append, strip_prefix_sound, append_assoc,
}
use vpn_mgr.VpnConfig.Read.{read_path}
use vpn_mgr.VpnConfig.Write.{saved_path}

-- A text that a prefix was stripped from is not empty, if the prefix is not.
tilde_valid : (rest : String) → valid ("~/" <> rest) ≡ true
unfolding strip_prefix
tilde_valid rest = elim (Bool-cases ("~/" <> rest == "")) [
  | inl empty ↦
      let same = (eq_iff ("~/" <> rest) "").0 empty in
      cc (sym (strip_prefix-append "~/" rest), ap (strip_prefix "~/") same)
  | inr full ↦ rw full refl
]

read_path-tilde : (home rest : String) → read_path home ("~/" <> rest) ≡ home <> "/" <> rest
unfolding read_path
read_path-tilde home rest = rw tilde_valid (rw strip_prefix-append refl)

-- A path that is not empty and does not begin with `~/` is unchanged when it is saved by
-- `SaveFilePath` and read back by `ReadFileConf` with the same home directory, whether it lies
-- below that directory or not.
pub read_path-saved_path :
    (home path : String)
    → valid path ≡ true
    → begins path "~/" ≡ false
    → read_path home (saved_path (home <> "/") path) ≡ path
unfolding saved_path
read_path-saved_path home path v h = elim (Option-cases (strip_prefix (home <> "/") path)) [
  | inl outside ↦ rw (outside, saved_path) (unfold read_path in ground arith)
  | inr (rest, below) ↦
      rw (below, saved_path)
        (read_path-tilde home rest
          ∙ sym (strip_prefix_sound (home <> "/") path rest below ∙ append_assoc home "/" rest))
]
