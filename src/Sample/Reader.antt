-- ===== src/Sample/Reader.antt =====
-- The small libUseful on the lines of a configuration file.
use Prim.Native.Char.{Char}
use Prim.Native.String.append
use vpn_mgr.Base.{String, ◌<>◌, ◌≡◌, refl, ◌∙◌, ap, Bool, true, Option, some, List, ◌∷◌, arith}
use vpn_mgr.Base.Chars.{is_space}
use vpn_mgr.Base.Text.{append_assoc, append-nil}
use vpn_mgr.Process.{Event, Stream}
use vpn_mgr.Sample.{attach, split_lines, trim_end, first_more, split_equals, sample_env}
use vpn_mgr.VpnConfig.RoundTrip.{is_plain, is_key, ReadsLines}
use vpn_mgr.VpnConfig.Write.{line}

cons_append : (c : Char) (s : String) → String.◌∷◌ c String.[] <> s ≡ String.◌∷◌ c s
cons_append c s = simp (append.cons, append.nil) refl

key_plain : (k : String) → is_key k ≡ true → is_plain k ≡ true
unfolding is_key is_plain
key_plain String.[] h = refl
key_plain (String.◌∷◌ c k) h = ground (arith, key_plain k)

split_lines-append :
    (p t l : String) (ls : List String)
    → is_plain p ≡ true
    → split_lines t ≡ l ∷ ls
    → split_lines (p <> t) ≡ (p <> l) ∷ ls
unfolding split_lines is_plain attach
split_lines-append String.[] t l ls h e = simp append.nil e
split_lines-append (String.◌∷◌ c p) t l ls h e =
    simp append.cons (ground (arith, split_lines-append p t l ls))

trim_end-append : (p t : String) → is_plain p ≡ true → trim_end (p <> t) ≡ p <> trim_end t
unfolding trim_end is_plain is_space
trim_end-append String.[] t h = simp append.nil refl
trim_end-append (String.◌∷◌ c p) t h = simp append.cons (ground (arith, trim_end-append p t))

split_equals-append : (k v : String) → is_key k ≡ true → split_equals (k <> "=" <> v) ≡ some (k, v)
unfolding split_equals first_more is_key
split_equals-append String.[] v h = rw append.nil (ap split_equals (cons_append "=" v))
split_equals-append (String.◌∷◌ c k) v h =
    simp append.cons (ground (arith, split_equals-append k v))

split_lines-newline : (rest : String) → split_lines ("\n" <> rest) ≡ "\n" ∷ split_lines rest
unfolding split_lines
split_lines-newline rest = ap split_lines (cons_append "\n" rest)

split_lines-line :
    (key value rest : String)
    → is_key key ≡ true
    → is_plain value ≡ true
    → split_lines (line key value <> rest) ≡ line key value ∷ split_lines rest
unfolding is_plain
split_lines-line key value rest k p =
    ap split_lines (simp append_assoc refl)
    ∙ split_lines-append key _ _ _ (key_plain key k) (
        split_lines-append "=" _ _ _ refl
          (split_lines-append value _ _ _ p (split_lines-newline rest)))

trim_end-line :
    (key value : String)
    → is_key key ≡ true
    → is_plain value ≡ true
    → trim_end (line key value) ≡ key <> "=" <> value
unfolding is_plain trim_end is_space
trim_end-line key value k p =
    trim_end-append key ("=" <> value <> "\n") (key_plain key k)
    ∙ ap (λ t. key <> t)
        (trim_end-append "=" (value <> "\n") refl
          ∙ ap (λ t. "=" <> t) (trim_end-append value "\n" p ∙ append-nil value))

module _ (stream : List Event → Option Stream) (agrees : List Event → Bool) where
  pub sample_reads : ReadsLines (sample_env stream agrees)
  unfolding sample_env
  sample_reads = record {
    read_lines-nil = unfold split_lines in refl;
    read_lines-line = split_lines-line;
    trim_right-line = trim_end-line;
    pairs-entry = λ key value k p. rw (split_equals-append key value k) refl;
  }
