-- ===== src/Net/First.antt =====
-- A search by number for a name that is not taken, as net.c has two.
use vpn_mgr.Base.{ℕ, ◌+◌, ◌≤◌, ◌<◌, String, ◌≡◌, refl, ◌⊎◌, inl, inr, Bool, true, false, arith}

module _ (spell : ℕ → String) (taken : String → Bool) where
  -- No name of the range is free.
  abbrev pub Full : ℕ → ℕ → Type 0
  Full low high = (n : ℕ) → low ≤ n → n < high → taken (spell n) ≡ true

-- The first free name of the range, with its number.
pub record FirstFree (spell : ℕ → String) (taken : String → Bool) (low high : ℕ) (name : String)
    : Type 0 where
  pub count : ℕ
  pub is_name : name ≡ spell count
  pub at_least : low ≤ count
  pub below : count < high
  pub free : taken (spell count) ≡ false
  pub first : Full spell taken low count

-- The name is the first free one, or it is empty and there is none.
abbrev pub FirstOrNone : (ℕ → String) → (String → Bool) → ℕ → ℕ → String → Type 0
FirstOrNone spell taken low high name =
    ((name ≡ "") × Full spell taken low high) ⊎ FirstFree spell taken low high name

low_or_more : (low n : ℕ) → low ≤ n → (n ≡ low) ⊎ low + 1 ≤ n
low_or_more low n h = ground arith

at_least_suc : (a b : ℕ) → a + 1 ≤ b → a ≤ b
at_least_suc a b h = omega arith

module _ (spell : ℕ → String) (taken : String → Bool) where
  Full-suc :
      (low high : ℕ)
      → taken (spell low) ≡ true
      → Full spell taken (low + 1) high
      → Full spell taken low high
  Full-suc low high t full n a b = elim (low_or_more low n a) [
    | inl e ↦ rw e t
    | inr more ↦ full n more b
  ]

  pub first-none : (high : ℕ) → FirstOrNone spell taken high high ""
  first-none high = inl (refl, λ n a b. absurd (omega arith))

  pub first-here :
      (low high : ℕ)
      → taken (spell low) ≡ false
      → low < high
      → FirstOrNone spell taken low high (spell low)
  first-here low high free h = inr record {
    count = low;
    is_name = refl;
    at_least = omega arith;
    below = h;
    free = free;
    first = λ n a b. absurd (omega arith);
  }

  pub first-later :
      (low high : ℕ) (name : String)
      → taken (spell low) ≡ true
      → FirstOrNone spell taken (low + 1) high name
      → FirstOrNone spell taken low high name
  first-later low high name t (inl (empty, full)) = inl (empty, Full-suc low high t full)
  first-later low high name t (inr f) = inr record {
    count = f.count;
    is_name = f.is_name;
    at_least = at_least_suc low f.count f.at_least;
    below = f.below;
    free = f.free;
    first = Full-suc low f.count t f.first;
  }
