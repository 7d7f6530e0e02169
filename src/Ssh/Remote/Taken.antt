-- ===== src/Ssh/Remote/Taken.antt =====
-- What `STREAMReadBytes` takes off a stream (ssh.c).
use Prim.Native.String.append
use vpn_mgr.Base.{
  ℕ, zero, suc, ◌+◌, ◌≤◌, String, ◌<>◌, ◌≡◌, refl, ◌∙◌, sym, ap, true, false, ◌-◌, List, [], ◌∷◌,
  eqb, leb, Bool-cases, inl, inr, arith,
}
use vpn_mgr.Base.Chars.{drop, str_len}
use vpn_mgr.Base.Text.{append_assoc}
use vpn_mgr.Common.{deliver}
use vpn_mgr.Process.{Read, State, ret, ◌>>=◌}
use vpn_mgr.Ssh.Remote.{take_bytes}

-- The text of what is still to be read.
unfoldable pub unread : List Read → String
unread [] = ""
unread (r ∷ reads) = r.line <> unread reads

-- No signal comes with any of the reads.
abbrev pub AllQuiet : List Read → Type 0
AllQuiet [] = Unit
AllQuiet (r ∷ reads) = (r.sigint ≡ false) × AllQuiet reads

str_len-append : (a b : String) → str_len (a <> b) ≡ str_len a + str_len b
unfolding str_len
str_len-append String.[] b = rw append.nil (omega arith)
str_len-append (String.◌∷◌ c a) b = rw append.cons (rw (str_len-append a b) (omega arith))

-- The first n bytes of a text that has so many, and what is behind them.
drop-split :
    (n : ℕ) (s : String)
    → n ≤ str_len s
    → (front : String) × (s ≡ front <> drop n s) × (str_len front ≡ n)
unfolding drop str_len
drop-split zero String.[] h = ("", sym (append.nil ""), refl)
drop-split (suc n) String.[] h = absurd (omega arith)
drop-split zero (String.◌∷◌ c s) h = ("", sym (append.nil (String.◌∷◌ c s)), refl)
drop-split (suc n) (String.◌∷◌ c s) h =
    let (front, e, k) = drop-split n s (omega arith) in
    (
      String.◌∷◌ c front,
      ap (λ x. String.◌∷◌ c x) e ∙ sym (append.cons c front (drop n s)),
      ap suc k,
    )

-- A call returned what is left of the reads behind at most n bytes.
abbrev pub Taken : ℕ → List Read → List Read → Type 0
Taken n reads left = (front : String) × (unread reads ≡ front <> unread left) × (str_len front ≤ n)

fits : (a b n : ℕ) → leb a n ≡ true → b ≤ n - a → a + b ≤ n
fits a b n h k = ground arith

beyond : (a n : ℕ) → leb a n ≡ false → n ≤ a
beyond a n h = ground arith

pub take_bytes-Taken :
    (n : ℕ) (reads : List Read) (s : State)
    → AllQuiet reads
    → (left : List Read) × ((take_bytes n reads s).0 ≡ ret left) × Taken n reads left
unfolding take_bytes unread deliver ◌>>=◌ str_len
take_bytes-Taken n [] s q = ([], refl, ("", sym (append.nil ""), omega arith))
take_bytes-Taken n (r ∷ reads) s (q, qs) = elim (Bool-cases (eqb n 0)) [
  | inl none ↦ (r ∷ reads, rw none refl, ("", sym (append.nil (unread (r ∷ reads))), omega arith))
  | inr some ↦ elim (Bool-cases (leb (str_len r.line) n)) [
    | inl whole ↦
        let (left, e, (front, f, k)) = take_bytes-Taken (n - str_len r.line) reads s qs in
        (
          left,
          rw (some, q, whole) e,
          (
            r.line <> front,
            rw f (sym (append_assoc r.line front (unread left))),
            rw (str_len-append r.line front) (fits _ _ n whole k),
          ),
        )
    | inr part ↦
        let (front, e, k) = drop-split n r.line (beyond _ n part) in
        (
          record { line = drop n r.line; sigint = false } ∷ reads,
          rw (some, q, part) refl,
          (
            front,
            ap (λ x. x <> unread reads) e ∙ append_assoc front (drop n r.line) (unread reads),
            omega arith,
          ),
        )
  ]
]
