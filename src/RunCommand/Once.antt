-- ===== src/RunCommand/Once.antt =====
-- Actions that run the commands for one device, and no others, at most once (run_command.c).
use mathlib.Core.List.{append-nil}
use vpn_mgr.Base.{String, ◌≡◌, sym, ◌∙◌, ◌⊎◌, inl, inr, Bool, true, false, List, []}
use vpn_mgr.Base.Text.{valid}
use vpn_mgr.Process.Keeps.{Keeps}
use vpn_mgr.Process.Respects.{Respects}
use vpn_mgr.Process.{State, Res, ret, stop, fault, M, continue, ◌>>=◌, ◌>>◌, pure}
use vpn_mgr.RunCommand.Runs.{Ran, RanFirst, CarriedOut, Runs, chain}

-- No command was run; or those of one device were, all of them where the call returns.
abbrev pub Once : {A : Type 0} → (String → List String) → State → Res A → State → Type 0
Once commands s r t =
    Ran [] s t ⊎ ((dev : String) × (valid dev ≡ true) × CarriedOut (commands dev) s r t)

-- What is known of an action that says whether it has run them.
abbrev pub Tried : (String → List String) → State → Res Bool → State → Type 0
Tried commands s (ret true) t = (dev : String) × (valid dev ≡ true) × Ran (commands dev) s t
Tried commands s (ret false) t = Ran [] s t
Tried commands s (stop c) t =
    Ran [] s t ⊎ ((dev : String) × (valid dev ≡ true) × RanFirst (commands dev) s t)
Tried commands s fault t =
    Ran [] s t ⊎ ((dev : String) × (valid dev ≡ true) × RanFirst (commands dev) s t)

module _ (nodns : Bool) (commands : String → List String) where
  pub record RunsOnce {A : Type 0} (m : M A) : Type 0 where
    pub at : (s : State) → s.flags.nodns ≡ nodns → Once commands s (m s).0 (m s).1

  pub record Tries (m : M Bool) : Type 0 where
    pub at : (s : State) → s.flags.nodns ≡ nodns → Tried commands s (m s).0 (m s).1

quiet-Ran : (s t : State) → Keeps s t → Ran [] s t
quiet-Ran s t k = record { ran = k.ran; nodns = k.nodns }

module _ {A : Type 0} (commands : String → List String) where
  -- What ran nothing may stand in front.
  quiet-Once : (r : Res A) (s t u : State) → Ran [] s t → Once commands t r u → Once commands s r u
  quiet-Once r s t u p (inl q) = inl (record { ran = q.ran ∙ p.ran; nodns = q.nodns ∙ p.nodns })
  quiet-Once r s t u p (inr (dev, known, h)) = inr (dev, known, chain [] (commands dev) r s t u p h)

  -- What follows the commands runs nothing.
  done-CarriedOut :
      (xs : List String) (r : Res A) (s t u : State) → Ran xs s t → Keeps t u → CarriedOut xs s r u
  done-CarriedOut xs (ret a) s t u p k = record { ran = k.ran ∙ p.ran; nodns = k.nodns ∙ p.nodns }
  done-CarriedOut xs (stop c) s t u p k = (xs, [], sym (append-nil xs), k.ran ∙ p.ran)
  done-CarriedOut xs fault s t u p k = (xs, [], sym (append-nil xs), k.ran ∙ p.ran)

module _ {A : Type 0} (nodns : Bool) (commands : String → List String) where
  pub quiet-RunsOnce : (m : M A) → Respects Keeps m → RunsOnce nodns commands m
  quiet-RunsOnce m p = record { at = λ s n. inl (quiet-Ran s (m s).1 (p.at s)) }

module _ {A B : Type 0} (nodns : Bool) (commands : String → List String) where
  continue-Once :
      (r : Res A) (f : A → M B) (s t : State)
      → s.flags.nodns ≡ nodns
      → Keeps s t
      → ((a : A) → RunsOnce nodns commands (f a))
      → Once commands s (continue r f t).0 (continue r f t).1
  continue-Once (ret a) f s t n k h =
      quiet-Once commands (f a t).0 s t (f a t).1 (quiet-Ran s t k) ((h a).at t (k.nodns ∙ n))
  continue-Once (stop c) f s t n k h = inl (quiet-Ran s t k)
  continue-Once fault f s t n k h = inl (quiet-Ran s t k)

  pub then-RunsOnce :
      (m : M A) (f : A → M B)
      → Respects Keeps m
      → ((a : A) → RunsOnce nodns commands (f a))
      → RunsOnce nodns commands (m >>= f)
  unfolding ◌>>=◌
  then-RunsOnce m f p k = record { at = λ s n. continue-Once (m s).0 f s (m s).1 n (p.at s) k }

module _ {B : Type 0} (nodns : Bool) (commands : String → List String) where
  continue-Tried :
      (r : Res Bool) (f : Bool → M B) (s t : State)
      → s.flags.nodns ≡ nodns
      → Tried commands s r t
      → Respects Keeps (f true)
      → RunsOnce nodns commands (f false)
      → Once commands s (continue r f t).0 (continue r f t).1
  continue-Tried (ret true) f s t n (dev, known, h) p q =
      inr (
        dev,
        known,
        done-CarriedOut commands (commands dev) (f true t).0 s t (f true t).1 h (p.at t),
      )
  continue-Tried (ret false) f s t n h p q =
      quiet-Once commands (f false t).0 s t (f false t).1 h (q.at t (h.nodns ∙ n))
  continue-Tried (stop c) f s t n h p q = h
  continue-Tried fault f s t n h p q = h

  pub Tries-RunsOnce :
      (m : M Bool) (f : Bool → M B)
      → Tries nodns commands m
      → Respects Keeps (f true)
      → RunsOnce nodns commands (f false)
      → RunsOnce nodns commands (m >>= f)
  unfolding ◌>>=◌
  Tries-RunsOnce m f h p q = record {
    at = λ s n. continue-Tried (m s).0 f s (m s).1 n (h.at s n) p q;
  }

module _ (commands : String → List String) where
  quiet-Tried :
      (r : Res Bool) (s t u : State) → Ran [] s t → Tried commands t r u → Tried commands s r u
  quiet-Tried (ret true) s t u p (dev, known, h) =
      (dev, known, chain [] (commands dev) (ret true) s t u p h)
  quiet-Tried (ret false) s t u p h = record { ran = h.ran ∙ p.ran; nodns = h.nodns ∙ p.nodns }
  quiet-Tried (stop c) s t u p h = quiet-Once {A = Bool} commands (stop c) s t u p h
  quiet-Tried fault s t u p h = quiet-Once {A = Bool} commands fault s t u p h

module _ {A : Type 0} (nodns : Bool) (commands : String → List String) where
  continue-quiet :
      (r : Res A) (f : A → M Bool) (s t : State)
      → s.flags.nodns ≡ nodns
      → Keeps s t
      → ((a : A) → Tries nodns commands (f a))
      → Tried commands s (continue r f t).0 (continue r f t).1
  continue-quiet (ret a) f s t n k h =
      quiet-Tried commands (f a t).0 s t (f a t).1 (quiet-Ran s t k) ((h a).at t (k.nodns ∙ n))
  continue-quiet (stop c) f s t n k h = inl (quiet-Ran s t k)
  continue-quiet fault f s t n k h = inl (quiet-Ran s t k)

  pub then-Tries :
      (m : M A) (f : A → M Bool)
      → Respects Keeps m
      → ((a : A) → Tries nodns commands (f a))
      → Tries nodns commands (m >>= f)
  unfolding ◌>>=◌
  then-Tries m f p k = record { at = λ s n. continue-quiet (m s).0 f s (m s).1 n (p.at s) k }

module _ (nodns : Bool) (commands : String → List String) (dev : String)
    (known : valid dev ≡ true) where
  up_done :
      (r : Res (Unit {0})) (s t : State)
      → CarriedOut (commands dev) s r t
      → Tried commands s (continue r (λ _. pure true) t).0 (continue r (λ _. pure true) t).1
  unfolding pure
  up_done (ret u) s t h = (dev, known, h)
  up_done (stop c) s t h = inr (dev, known, h)
  up_done fault s t h = inr (dev, known, h)

  pub up-Tries :
      (m : M (Unit {0})) → Runs nodns m (commands dev) → Tries nodns commands (m >> pure true)
  unfolding ◌>>=◌
  up-Tries m p = record { at = λ s n. up_done (m s).0 s (m s).1 (p.at s n) }
