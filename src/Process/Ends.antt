-- ===== src/Process/Ends.antt =====
-- How a call ends: what may be said of a fault, and that a chain of calls keeps it.
use vpn_mgr.Base.{◌≡◌}
use vpn_mgr.Process.Orderly.{Outcome}
use vpn_mgr.Process.{State, Res, M, ret, stop, fault, continue, ◌>>=◌}

-- A call returns, or ends the process with status 1, or faults where F holds.
abbrev pub Ends : {A : Type 0} → Type 0 → Res A → Type 0
Ends F (ret a) = Unit
Ends F (stop c) = c ≡ 1
Ends F fault = F

module _ {A : Type 0} (F : Type 0) where
  pub Ends-Outcome :
      (G : State → Type 0) (r : Res A) (t : State) → Ends F r → (F → G t) → Outcome G r t
  Ends-Outcome G (ret a) t h f = tt
  Ends-Outcome G (stop c) t h f = h
  Ends-Outcome G fault t h f = f h

  pub Ends-map : (G : Type 0) (r : Res A) → (F → G) → Ends F r → Ends G r
  Ends-map G (ret a) f h = tt
  Ends-map G (stop c) f h = h
  Ends-map G fault f h = f h

module _ {A B : Type 0} (F : Type 0) where
  continue-Ends :
      (r : Res A) (f : A → M B) (s : State)
      → Ends F r
      → ((a : A) (t : State) → Ends F (f a t).0)
      → Ends F (continue r f s).0
  continue-Ends (ret a) f s h k = k a s
  continue-Ends (stop c) f s h k = h
  continue-Ends fault f s h k = h

  pub >>=-Ends :
      (m : M A) (f : A → M B) (s : State)
      → Ends F (m s).0
      → ((a : A) (t : State) → Ends F (f a t).0)
      → Ends F ((m >>= f) s).0
  unfolding ◌>>=◌
  >>=-Ends m f s h k = continue-Ends (m s).0 f (m s).1 h k

pub Outcome-map :
    {A : Type 0} (F G : State → Type 0) (r : Res A) (t : State)
    → Outcome F r t
    → ((u : State) → F u → G u)
    → Outcome G r t
Outcome-map F G (ret a) t h f = tt
Outcome-map F G (stop c) t h f = h
Outcome-map F G fault t h f = f t h

module _ {A B : Type 0} (F : State → Type 0) where
  continue-Outcome :
      (r : Res A) (f : A → M B) (t : State)
      → Outcome F r t
      → ((a : A) (u : State) → Outcome F (f a u).0 (f a u).1)
      → Outcome F (continue r f t).0 (continue r f t).1
  continue-Outcome (ret a) f t h k = k a t
  continue-Outcome (stop c) f t h k = h
  continue-Outcome fault f t h k = h

  pub >>=-Outcome :
      (m : M A) (f : A → M B) (s : State)
      → Outcome F (m s).0 (m s).1
      → ((a : A) (u : State) → Outcome F (f a u).0 (f a u).1)
      → Outcome F ((m >>= f) s).0 ((m >>= f) s).1
  unfolding ◌>>=◌
  >>=-Outcome m f s h k = continue-Outcome (m s).0 f (m s).1 h k
