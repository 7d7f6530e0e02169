-- ===== src/Process/Orderly.antt =====
-- Actions that end as the program means to, whatever the system answers, with one rule for each
-- way to build one.
use mathlib.Core.List.{append_assoc}
use vpn_mgr.Base.{
  String, ◌≡◌, refl, ◌∙◌, sym, ap, Bool, true, false, Option, none, some, List, [], ◌∷◌, ◌++◌,
  if◌then◌else◌,
}
use vpn_mgr.Process.{
  Event, ActiveStream, State, Res, ret, stop, fault, M, pure, exit_with, emit, get_flags, ask,
  continue, ◌>>=◌,
}

-- What no action of a link changes: the programs that were found, FLAG_NODNS, FLAG_DEBUG and
-- FLAG_VERBOSE. FLAG_EXIT stays set once it is, and the record of the commands only grows.
pub record Ordered (s t : State) : Type 0 where
  pub found : t.found ≡ s.found
  pub nodns : t.flags.nodns ≡ s.flags.nodns
  pub debug : t.flags.debug ≡ s.flags.debug
  pub verbose : t.flags.verbose ≡ s.flags.verbose
  pub exit : s.flags.exit ≡ true → t.flags.exit ≡ true
  pub ran : (more : List String) × (t.ran ≡ more ++ s.ran)

-- `Active` is a stream that was closed.
abbrev pub is_stale : Option ActiveStream → Bool
is_stale none = false
is_stale (some a) = a.closed

abbrev pub Stale : State → Type 0
Stale t = is_stale t.active ≡ true

-- A call returns, or ends the process with status 1, or faults in a state of which F holds.
abbrev pub Outcome : {A : Type 0} → (State → Type 0) → Res A → State → Type 0
Outcome F (ret a) t = Unit
Outcome F (stop c) t = c ≡ 1
Outcome F fault t = F t

pub Outcome-ret :
    {A : Type 0} (F : State → Type 0) (r : Res A) (t : State) (a : A) → r ≡ ret a → Outcome F r t
Outcome-ret F (ret b) t a e = tt
Outcome-ret F (stop c) t a e = cc
Outcome-ret F fault t a e = cc

-- A call faults only where `Active` is a stream that was closed.
abbrev pub EndsWell : {A : Type 0} → Res A → State → Type 0
EndsWell r t = Outcome Stale r t

pub record Orderly {A : Type 0} (m : M A) : Type 0 where
  pub at : (s : State) → EndsWell (m s).0 (m s).1 × Ordered s (m s).1

-- Every change of the trace is fine.
pub Ordered-trace : (s : State) (t : List Event) → Ordered s (record s { trace = t })
Ordered-trace s t = record {
  found = refl;
  nodns = refl;
  debug = refl;
  verbose = refl;
  exit = λ h. h;
  ran = ([], refl);
}

chain : (s t u : State) → Ordered s t → Ordered t u → Ordered s u
chain s t u p q =
    let (before, e) = p.ran in
    let (behind, f) = q.ran in
    record {
      found = q.found ∙ p.found;
      nodns = q.nodns ∙ p.nodns;
      debug = q.debug ∙ p.debug;
      verbose = q.verbose ∙ p.verbose;
      exit = λ h. q.exit (p.exit h);
      ran = (
        behind ++ before,
        f ∙ ap (λ xs. behind ++ xs) e ∙ sym (append_assoc behind before s.ran),
      );
    }

module _ {A : Type 0} where
  pub pure-Orderly : (a : A) → Orderly (pure a)
  unfolding pure
  pure-Orderly a = record { at = λ s. (tt, Ordered-trace s s.trace) }

  pub exit_with-Orderly : Orderly (exit_with {A = A} 1)
  unfolding exit_with
  exit_with-Orderly = record { at = λ s. (refl, Ordered-trace s s.trace) }

  pub ask-Orderly : (answer : List Event → A) (e : Event) → Orderly (ask answer e)
  unfolding ask
  ask-Orderly answer e = record { at = λ s. (tt, Ordered-trace s _) }

  pub if-Orderly : (b : Bool) (m n : M A) → Orderly m → Orderly n → Orderly (if b then m else n)
  if-Orderly true m n p q = p
  if-Orderly false m n p q = q

module _ {A B : Type 0} where
  pub Option-Orderly :
      (o : Option A) (m : M B) (f : A → M B)
      → Orderly m
      → ((a : A) → Orderly (f a))
      → Orderly (elim o [ none ↦ m | some a ↦ f a ])
  Option-Orderly none m f p k = p
  Option-Orderly (some a) m f p k = k a

  pub List-Orderly :
      (xs : List A) (m : M B) (f : A → List A → M B)
      → Orderly m
      → ((a : A) (rest : List A) → Orderly (f a rest))
      → Orderly (elim xs [ [] ↦ m | a ∷ rest ↦ f a rest ])
  List-Orderly [] m f p k = p
  List-Orderly (a ∷ rest) m f p k = k a rest

pub emit-Orderly : (e : Event) → Orderly (emit e)
unfolding emit
emit-Orderly e = record { at = λ s. (tt, Ordered-trace s _) }

pub get_flags-Orderly : Orderly get_flags
unfolding get_flags
get_flags-Orderly = record { at = λ s. (tt, Ordered-trace s s.trace) }

module _ {A B : Type 0} where
  continue-Orderly :
      (r : Res A) (f : A → M B) (s t : State)
      → EndsWell r t
      → Ordered s t
      → ((a : A) → Orderly (f a))
      → EndsWell (continue r f t).0 (continue r f t).1 × Ordered s (continue r f t).1
  continue-Orderly (ret a) f s t e h k = let (e', h') = (k a).at t in (e', chain s t (f a t).1 h h')
  continue-Orderly (stop c) f s t e h k = (e, h)
  continue-Orderly fault f s t e h k = (e, h)

  pub >>=-Orderly :
      (m : M A) (f : A → M B) → Orderly m → ((a : A) → Orderly (f a)) → Orderly (m >>= f)
  unfolding ◌>>=◌
  >>=-Orderly m f p k = record {
    at = λ s. let (e, h) = p.at s in continue-Orderly (m s).0 f s (m s).1 e h k;
  }

pub ruleset orderly_rules = (
  pure-Orderly, exit_with-Orderly, ask-Orderly, if-Orderly, emit-Orderly, get_flags-Orderly,
  >>=-Orderly,
)
