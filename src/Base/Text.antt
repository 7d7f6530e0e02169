-- ===== src/Base/Text.antt =====
-- Texts: prefixes, their removal, and concatenation.
use Prim.Native.Char.{Char, code}
use Prim.Native.String.{String, ◌++◌}
use Prim.Native.String.append
use mathlib.Core.Path.{◌≡◌, refl}
use mathlib.Core.Logic.{inl, inr}
use mathlib.Core.Bool.{Bool, true, false, not}
use mathlib.Core.Option.{Option, none, some}
use mathlib.Core.List.{List, [], ◌∷◌}
use native.Mathlib.Omega.{arith}
use text.Mathlib.Text.{◌==◌}
use text.Mathlib.TextEquality.{Char-path, eq_iff}
use vpn_mgr.Base.Tests.{eqb, Bool-cases, if◌then◌else◌}

-- `StrValid(s)`: neither NULL nor empty
abbrev pub valid : String → Bool
valid s = not (s == "")

-- `strncmp(s, p, strlen(p))==0`, with `s + strlen(p)` where that holds
unfoldable pub strip_prefix : String → String → Option String
strip_prefix String.[] s = some s
strip_prefix (String.◌∷◌ c p) String.[] = none
strip_prefix (String.◌∷◌ c p) (String.◌∷◌ d s) =
    if eqb (code c) (code d) then strip_prefix p s else none

abbrev pub is_some {ℓ} : {A : Type ℓ} → Option A → Bool
is_some none = false
is_some (some a) = true

-- `strncmp(s, p, strlen(p))==0`
abbrev pub begins : String → String → Bool
begins s p = is_some (strip_prefix p s)

pub append_assoc : (a b c : String) → (a ++ b) ++ c ≡ a ++ (b ++ c)
append_assoc String.[] b c = simp append.nil
append_assoc (String.◌∷◌ x a) b c = simp (append.cons, append_assoc a b c)

pub append-nil : (a : String) → a ++ "" ≡ a
append-nil String.[] = refl
append-nil (String.◌∷◌ x a) = simp (append.cons, append-nil a)

pub strip_prefix-append : (p r : String) → strip_prefix p (p ++ r) ≡ some r
unfolding strip_prefix
strip_prefix-append String.[] r = simp append.nil
strip_prefix-append (String.◌∷◌ c p) r = rw append.cons (ground (arith, strip_prefix-append p r))

-- What is stripped is a prefix.
pub strip_prefix_sound : (p s r : String) → strip_prefix p s ≡ some r → s ≡ p ++ r
unfolding strip_prefix
strip_prefix_sound String.[] s r h = simp append.nil (ground arith)
strip_prefix_sound (String.◌∷◌ c p) String.[] r h = cc
strip_prefix_sound (String.◌∷◌ c p) (String.◌∷◌ d s) r h =
    rw append.cons (ground (arith, Char-path c d, strip_prefix_sound p s r))

-- The texts of a list, one after the other.
unfoldable pub concat : List String → String
concat [] = ""
concat (s ∷ rest) = s ++ concat rest

pub valid-cons : (c : Char) (s : String) → valid (String.◌∷◌ c s) ≡ true
valid-cons c s = elim (Bool-cases (String.◌∷◌ c s == "")) [
  | inl same ↦ absurd (cc ((eq_iff (String.◌∷◌ c s) "").0 same))
  | inr other ↦ rw other refl
]

pub valid-append : (s t : String) → valid s ≡ true → valid (s ++ t) ≡ true
valid-append String.[] t h = absurd cc
valid-append (String.◌∷◌ c s) t h = rw append.cons (valid-cons c (s ++ t))
