-- ===== src/OpenVpn/Followed.antt =====
-- Actions that follow a list of commands up to the end of a loop that FLAG_EXIT may break off
-- (openvpn.c, run_command.c).
use mathlib.Core.Path.{subst}
use vpn_mgr.Base.{String, ◌≡◌, refl, ◌∙◌, sym, Bool, true, false, List, [], ◌++◌, if◌then◌else◌}
use vpn_mgr.Process.Keeps.{Keeps}
use vpn_mgr.Process.Respects.{Respects}
use vpn_mgr.Process.{State, Res, ret, stop, fault, M, continue, ◌>>=◌, ◌>>◌, pure, get_flags}
use vpn_mgr.RunCommand.Runs.{
  Ran, RanFirst, CarriedOut, Runs, chain, chain-first, more-first, quiet-Runs,
}

-- What a call did that ended in t, with FLAG_EXIT then as it is said: where it returned with FLAG_EXIT
-- clear, all of the commands were run and the device is the one that is named; else a beginning of
-- them was run.
abbrev pub Followed : List String → String → State → Res String → Bool → State → Type 0
Followed commands dev s (ret d) false t = Ran commands s t × (d ≡ dev)
Followed commands dev s (ret d) true t = RanFirst commands s t
Followed commands dev s (stop c) exit t = RanFirst commands s t
Followed commands dev s fault exit t = RanFirst commands s t

-- Started with FLAG_NODNS as it is, the action follows the commands and leads to the device.
pub record Follows (nodns : Bool) (commands : List String) (dev : String) (m : M String)
    : Type 0 where
  pub at :
      (s : State)
      → s.flags.nodns ≡ nodns
      → Followed commands dev s (m s).0 (m s).1.flags.exit (m s).1

prepend :
    (xs ys : List String) (dev : String) (r : Res String) (exit : Bool) (s t u : State)
    → Ran xs s t
    → Followed ys dev t r exit u
    → Followed (xs ++ ys) dev s r exit u
prepend xs ys dev (ret d) false s t u p q = (chain xs ys (ret d) s t u p q.0, q.1)
prepend xs ys dev (ret d) true s t u p q = chain-first xs ys s t u p q
prepend xs ys dev (stop c) exit s t u p q = chain-first xs ys s t u p q
prepend xs ys dev fault exit s t u p q = chain-first xs ys s t u p q

none-yet :
    (commands : List String) (dev d : String) (s : State)
    → s.flags.exit ≡ true
    → Followed commands dev s (ret d) s.flags.exit s
none-yet commands dev d s e = rw e ([], commands, refl, refl)

module _ {A : Type 0} (nodns : Bool) where
  continue-Followed :
      (r : Res A) (f : A → M String) (a : A) (xs ys : List String) (dev : String) (s t : State)
      → s.flags.nodns ≡ nodns
      → CarriedOut xs s r t
      → ((b : A) → r ≡ ret b → b ≡ a)
      → Follows nodns ys dev (f a)
      → Followed
          (xs ++ ys)
          dev
          s
          (continue r f t).0
          (continue r f t).1.flags.exit
          (continue r f t).1
  continue-Followed (ret b) f a xs ys dev s t n h k p =
      subst (λ x. Followed (xs ++ ys) dev s (f x t).0 (f x t).1.flags.exit (f x t).1)
        (sym (k b refl))
        (prepend xs ys dev (f a t).0 (f a t).1.flags.exit s t (f a t).1 h (p.at t (h.nodns ∙ n)))
  continue-Followed (stop c) f a xs ys dev s t n h k p = more-first xs ys s t h
  continue-Followed fault f a xs ys dev s t n h k p = more-first xs ys s t h

  pub >>=-Follows :
      (m : M A) (f : A → M String) (a : A) (xs ys : List String) (dev : String)
      → Runs nodns m xs
      → ((s : State) (b : A) → (m s).0 ≡ ret b → b ≡ a)
      → Follows nodns ys dev (f a)
      → Follows nodns (xs ++ ys) dev (m >>= f)
  unfolding ◌>>=◌
  >>=-Follows m f a xs ys dev p k q = record {
    at = λ s n. continue-Followed (m s).0 f a xs ys dev s (m s).1 n (p.at s n) (k s) q;
  }

-- What runs nothing may stand in front.
pub then-Follows :
    (nodns : Bool) (m : M (Unit {0})) (f : M String) (ys : List String) (dev : String)
    → Respects Keeps m
    → Follows nodns ys dev f
    → Follows nodns ys dev (m >> f)
then-Follows nodns m f ys dev p q =
    >>=-Follows nodns m (λ _. f) tt [] ys dev (quiet-Runs nodns m p) (λ s b e. refl) q

pub here : (dev : String) (s : State) (exit : Bool) → Followed [] dev s (ret dev) exit s
here dev s false = (record { ran = refl; nodns = refl }, refl)
here dev s true = ([], [], refl, refl)

module _ (nodns : Bool) (f : M String) (ys : List String) (dev d : String)
    (p : Follows nodns ys dev f) where
  tested :
      (b : Bool) (s : State)
      → s.flags.exit ≡ b
      → s.flags.nodns ≡ nodns
      → Followed ys dev s
          ((if b then pure d else f) s).0
          ((if b then pure d else f) s).1.flags.exit
          ((if b then pure d else f) s).1
  unfolding pure
  tested true s e n = none-yet ys dev d s e
  tested false s e n = p.at s n

  -- The test of FLAG_EXIT.
  pub unless_exit : Follows nodns ys dev (get_flags >>= λ g. if g.exit then pure d else f)
  unfolding ◌>>=◌
  unless_exit = record { at = λ s n. tested s.flags.exit s refl n }
