-- ===== src/Base/Case.antt =====
-- Texts that are the same for `strcasecmp`.
use mathlib.Core.Path.{◌≡◌, refl}
use mathlib.Core.Bool.{Bool, true, false, ◌&&◌}
use native.Mathlib.Omega.{arith}
use Prim.Native.Nat.{ℕ}
use Prim.Native.Char.{code}
use Prim.Native.String.{String}
use vpn_mgr.Base.Chars.{to_lower, case_eq}
use vpn_mgr.Base.Tests.{eqb}

eqb_refl : (n : ℕ) → eqb n n ≡ true
eqb_refl n = ground arith

eqb_sym : (m n : ℕ) → eqb m n ≡ eqb n m
eqb_sym m n = ground arith

eqb_same : (l m n : ℕ) → eqb l m ≡ true → eqb l n ≡ eqb m n
eqb_same l m n h = ground arith

both : (a b : Bool) → a && b ≡ true → (a ≡ true) × (b ≡ true)
both true b h = (refl, h)
both false b h = absurd (cc h)

pub case_eq_refl : (s : String) → case_eq s s ≡ true
unfolding case_eq
case_eq_refl String.[] = refl
case_eq_refl (String.◌∷◌ c s) = rw (eqb_refl (to_lower (code c))) (case_eq_refl s)

pub case_eq_sym : (s t : String) → case_eq s t ≡ case_eq t s
unfolding case_eq
case_eq_sym String.[] String.[] = refl
case_eq_sym String.[] (String.◌∷◌ d t) = refl
case_eq_sym (String.◌∷◌ c s) String.[] = refl
case_eq_sym (String.◌∷◌ c s) (String.◌∷◌ d t) =
    rw (eqb_sym (to_lower (code c)) (to_lower (code d)), case_eq_sym s t) refl

pub case_eq_same : (s t u : String) → case_eq s t ≡ true → case_eq s u ≡ case_eq t u
unfolding case_eq
case_eq_same String.[] String.[] u h = refl
case_eq_same String.[] (String.◌∷◌ d t) u h = absurd (cc h)
case_eq_same (String.◌∷◌ c s) String.[] u h = absurd (cc h)
case_eq_same (String.◌∷◌ c s) (String.◌∷◌ d t) String.[] h = refl
case_eq_same (String.◌∷◌ c s) (String.◌∷◌ d t) (String.◌∷◌ e u) h =
    let (first, more) = both (eqb (to_lower (code c)) (to_lower (code d))) (case_eq s t) h in
    rw
      (
        eqb_same (to_lower (code c)) (to_lower (code d)) (to_lower (code e)) first,
        case_eq_same s t u more,
      )
      refl
