-- ===== src/Process/Completes.antt =====
-- Actions that return from every state and start nothing, with one rule for each way to build one.
use vpn_mgr.Base.{◌≡◌, refl, ◌∙◌, Bool, true, false, List, ◌∷◌, if◌then◌else◌}
use vpn_mgr.Process.{
  Event, Flags, State, Res, ret, stop, fault, M, pure, emit, get_flags, put_flags, ask, continue,
  ◌>>=◌,
}

-- No program was run, found or given a password, and no signal has another stream to end.
pub record Untouched (s t : State) : Type 0 where
  pub ran : t.ran ≡ s.ran
  pub found : t.found ≡ s.found
  pub passwords : t.passwords ≡ s.passwords
  pub active : t.active ≡ s.active

chain : (s t u : State) → Untouched s t → Untouched t u → Untouched s u
chain s t u p q = record {
  ran = q.ran ∙ p.ran;
  found = q.found ∙ p.found;
  passwords = q.passwords ∙ p.passwords;
  active = q.active ∙ p.active;
}

pub record Completes {A : Type 0} (m : M A) : Type 0 where
  pub at : (s : State) → (a : A) × ((m s).0 ≡ ret a) × Untouched s (m s).1

same : (s : State) → Untouched s s
same s = record { ran = refl; found = refl; passwords = refl; active = refl }

module _ {A : Type 0} where
  pub pure-Completes : (a : A) → Completes (pure a)
  unfolding pure
  pure-Completes a = record { at = λ s. (a, refl, same s) }

  pub ask-Completes : (answer : List Event → A) (e : Event) → Completes (ask answer e)
  unfolding ask
  ask-Completes answer e = record {
    at = λ s. (
      answer (e ∷ s.trace),
      refl,
      record { ran = refl; found = refl; passwords = refl; active = refl },
    );
  }

  pub if-Completes :
      (b : Bool) (m n : M A) → Completes m → Completes n → Completes (if b then m else n)
  if-Completes true m n p q = p
  if-Completes false m n p q = q

pub emit-Completes : (e : Event) → Completes (emit e)
unfolding emit
emit-Completes e = record {
  at = λ s. (tt, refl, record { ran = refl; found = refl; passwords = refl; active = refl });
}

pub get_flags-Completes : Completes get_flags
unfolding get_flags
get_flags-Completes = record { at = λ s. (s.flags, refl, same s) }

pub put_flags-Completes : (f : Flags) → Completes (put_flags f)
unfolding put_flags
put_flags-Completes f = record {
  at = λ s. (tt, refl, record { ran = refl; found = refl; passwords = refl; active = refl });
}

module _ {A B : Type 0} where
  continue-Completes :
      (r : Res A) (f : A → M B) (s t : State) (a : A)
      → r ≡ ret a
      → Untouched s t
      → ((x : A) → Completes (f x))
      → (b : B) × ((continue r f t).0 ≡ ret b) × Untouched s (continue r f t).1
  continue-Completes (ret x) f s t a h u k =
      let (b, e, w) = (k x).at t in (b, e, chain s t (f x t).1 u w)
  continue-Completes (stop c) f s t a h u k = absurd cc
  continue-Completes fault f s t a h u k = absurd cc

  pub >>=-Completes :
      (m : M A) (f : A → M B) → Completes m → ((a : A) → Completes (f a)) → Completes (m >>= f)
  unfolding ◌>>=◌
  >>=-Completes m f p k = record {
    at = λ s. let (a, h, u) = p.at s in continue-Completes (m s).0 f s (m s).1 a h u k;
  }

pub ruleset completes_rules = (
  pure-Completes, ask-Completes, if-Completes, emit-Completes, get_flags-Completes,
  put_flags-Completes, >>=-Completes,
)
