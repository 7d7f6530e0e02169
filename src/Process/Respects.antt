-- ===== src/Process/Respects.antt =====
-- Relations between the state before an action and the state after it, with one rule for each way
-- to build an action.
use vpn_mgr.Base.{Bool, true, false, List, if◌then◌else◌}
use vpn_mgr.Process.{
  Event, State, Res, ret, stop, fault, M, pure, exit_with, emit, get_flags, ask, continue, ◌>>=◌,
}

pub record Preorder (R : State → State → Type 0) : Type 0 where
  pub same : (s : State) → R s s
  pub chain : (s t u : State) → R s t → R t u → R s u
  -- What is added to the trace does not matter.
  pub traced : (s : State) (t : List Event) → R s (record s { trace = t })

-- Whatever the action does, also where it ends the process, `R` holds across it.
pub record Respects {A : Type 0} (R : State → State → Type 0) (m : M A) : Type 0 where
  pub at : (s : State) → R s (m s).1

module _ {R : State → State → Type 0} (P : Preorder R) {A : Type 0} where
  pub pure-Respects : (a : A) → Respects R (pure a)
  unfolding pure
  pure-Respects a = record { at = λ s. P.same s }

  pub exit_with-Respects : (n : _) → Respects R (exit_with {A = A} n)
  unfolding exit_with
  exit_with-Respects n = record { at = λ s. P.same s }

  pub ask-Respects : (answer : List Event → A) (e : Event) → Respects R (ask answer e)
  unfolding ask
  ask-Respects answer e = record { at = λ s. P.traced s _ }

  pub if-Respects :
      (b : Bool) (m n : M A) → Respects R m → Respects R n → Respects R (if b then m else n)
  if-Respects true m n p q = p
  if-Respects false m n p q = q

module _ {R : State → State → Type 0} (P : Preorder R) where
  pub emit-Respects : (e : Event) → Respects R (emit e)
  unfolding emit
  emit-Respects e = record { at = λ s. P.traced s _ }

  pub get_flags-Respects : Respects R get_flags
  unfolding get_flags
  get_flags-Respects = record { at = λ s. P.same s }

module _ {R : State → State → Type 0} (P : Preorder R) {A B : Type 0} where
  continue-Respects :
      (r : Res A) (f : A → M B) (s t : State)
      → R s t
      → ((a : A) → Respects R (f a))
      → R s (continue r f t).1
  continue-Respects (ret a) f s t h k = P.chain s t _ h ((k a).at t)
  continue-Respects (stop c) f s t h k = h
  continue-Respects fault f s t h k = h

  pub >>=-Respects :
      (m : M A) (f : A → M B) → Respects R m → ((a : A) → Respects R (f a)) → Respects R (m >>= f)
  unfolding ◌>>=◌
  >>=-Respects m f p k = record { at = λ s. continue-Respects (m s).0 f s (m s).1 (p.at s) k }

pub ruleset respects_rules = (
  pure-Respects, exit_with-Respects, ask-Respects, if-Respects, emit-Respects, get_flags-Respects,
  >>=-Respects,
)
