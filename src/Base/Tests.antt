-- ===== src/Base/Tests.antt =====
-- Boolean tests on the native numbers, the conditional, and case splits.
use Prim.Native.Nat.{ℕ, zero, suc, ◌+◌, ◌≤◌, ◌<◌, compare, Ordering}
use mathlib.Core.Path.{◌≡◌, refl, subst}
use mathlib.Core.Logic.{◌⊎◌, inl, inr}
use mathlib.Core.Bool.{Bool, true, false}
use mathlib.Core.Option.{Option, none, some}
use mathlib.Core.List.{List, [], ◌∷◌}
use native.Mathlib.Omega.{arith}

abbrev pub ltb : ℕ → ℕ → Bool
ltb a b = elim (compare a b) [ Ordering.lt ↦ true | _ ↦ false ]

abbrev pub leb : ℕ → ℕ → Bool
leb a b = elim (compare a b) [ Ordering.gt ↦ false | _ ↦ true ]

abbrev pub eqb : ℕ → ℕ → Bool
eqb a b = elim (compare a b) [ Ordering.eq ↦ true | _ ↦ false ]

infix 1 if◌then◌else◌
abbrev pub if◌then◌else◌ {ℓ} : {A : Type ℓ} → Bool → A → A → A
if true then x else y = x
if false then x else y = y

pub Bool-cases : (b : Bool) → (b ≡ true) ⊎ (b ≡ false)
Bool-cases true = inl refl
Bool-cases false = inr refl

pub Option-cases {ℓ} : {A : Type ℓ} (o : Option A) → (o ≡ none) ⊎ ((a : A) × (o ≡ some a))
Option-cases none = inl refl
Option-cases (some a) = inr (a, refl)

abbrev pub All {ℓ κ} : {A : Type ℓ} → (A → Type κ) → List A → Type κ
All P [] = Unit
All P (x ∷ xs) = P x × All P xs

abbrev pub any {ℓ} : {A : Type ℓ} → (A → Bool) → List A → Bool
any p [] = false
any p (x ∷ xs) = if p x then true else any p xs

-- Whether a test holds at so many numbers, counted up from the one given.
unfoldable pub holds_from : (ℕ → Bool) → (count : ℕ) → (from : ℕ) → Bool
holds_from test zero k = true
holds_from test (suc n) k = if test k then holds_from test n (suc k) else false

pub holds_from_sound :
    (test : ℕ → Bool) (count from k : ℕ)
    → holds_from test count from ≡ true
    → from ≤ k
    → k < count + from
    → test k ≡ true
unfolding holds_from
holds_from_sound test zero from k every low high = absurd (omega arith)
holds_from_sound test (suc count) from k every low high = elim (Bool-cases (test from)) [
  | inr fails ↦ absurd (cc (rw fails at every))
  | inl holds ↦ elim (Bool-cases (eqb from k)) [
    | inl same ↦ subst (λ j. test j ≡ true) (ground arith) holds
    | inr other ↦
        holds_from_sound test count (suc from) k (rw holds at every) (ground arith) (omega arith)
  ]
]
