-- ===== src/RunCommand/Runs.antt =====
-- Which commands an action hands to `RunCommand` (run_command.c), as a list, with one rule for
-- each way to build an action.
use mathlib.Core.Path.{subst}
use mathlib.Core.List.{reverse_aux, reverse_aux-append, append_assoc, append-nil}
use vpn_mgr.Base.{
  String, ◌≡◌, refl, ◌∙◌, sym, ap, Bool, true, false, List, [], ◌∷◌, ◌++◌, if◌then◌else◌,
}
use vpn_mgr.Process.Keeps.{Keeps, keeps}
use vpn_mgr.Process.Respects.{Respects, >>=-Respects}
use vpn_mgr.Process.{
  Flags, Event, Env, State, Res, ret, stop, fault, continue, M, ◌>>=◌, ◌>>◌, ask, get_flags,
}
use vpn_mgr.RunCommand.Format.{CmdFlags}
use vpn_mgr.RunCommand.Launch.Frame.{run_command_open-Keeps, finish_run-Keeps}
use vpn_mgr.RunCommand.Launch.{run_command_open, record_run, run_command}

-- The commands were run in this order, and FLAG_NODNS was left alone.
pub record Ran (commands : List String) (s t : State) : Type 0 where
  pub ran : t.ran ≡ reverse_aux commands s.ran
  pub nodns : t.flags.nodns ≡ s.flags.nodns

-- The first of the commands were run in this order, and no other.
abbrev pub RanFirst : List String → State → State → Type 0
RanFirst commands s t =
    (first : List String) × (rest : List String) × (commands ≡ first ++ rest)
    × (t.ran ≡ reverse_aux first s.ran)

-- What an action does that carries out the commands: all of them where it returns, and a
-- beginning of them where it ends the process.
abbrev pub CarriedOut : {A : Type 0} → List String → State → Res A → State → Type 0
CarriedOut commands s (ret a) t = Ran commands s t
CarriedOut commands s (stop c) t = RanFirst commands s t
CarriedOut commands s fault t = RanFirst commands s t

-- Started with FLAG_NODNS as it is, the action carries out the commands.
pub record Runs {A : Type 0} (nodns : Bool) (m : M A) (commands : List String) : Type 0 where
  pub at : (s : State) → s.flags.nodns ≡ nodns → CarriedOut commands s (m s).0 (m s).1

module _ {A : Type 0} (nodns : Bool) where
  quiet : (r : Res A) (s t : State) → Keeps s t → CarriedOut [] s r t
  quiet (ret a) s t k = record { ran = k.ran; nodns = k.nodns }
  quiet (stop c) s t k = ([], [], refl, k.ran)
  quiet fault s t k = ([], [], refl, k.ran)

  -- An action that keeps the record runs nothing.
  pub quiet-Runs : (m : M A) → Respects Keeps m → Runs nodns m []
  quiet-Runs m p = record { at = λ s n. quiet (m s).0 s (m s).1 (p.at s) }

  pub if-Runs :
      (b : Bool) (m n : M A) (xs ys : List String)
      → Runs nodns m xs
      → Runs nodns n ys
      → Runs nodns (if b then m else n) (if b then xs else ys)
  if-Runs true m n xs ys p q = p
  if-Runs false m n xs ys p q = q

  -- What was traced before does not matter.
  traced :
      (xs : List String) (r : Res A) (s t : State) (trace : List Event)
      → CarriedOut xs (record s { trace = trace }) r t
      → CarriedOut xs s r t
  traced xs (ret a) s t trace h = record { ran = h.ran; nodns = h.nodns }
  traced xs (stop c) s t trace h = h
  traced xs fault s t trace h = h

pub chain-first :
    (xs ys : List String) (s t u : State) → Ran xs s t → RanFirst ys t u → RanFirst (xs ++ ys) s u
chain-first xs ys s t u p (first, rest, parts, ran) = (
  xs ++ first,
  rest,
  ap (λ zs. xs ++ zs) parts ∙ sym (append_assoc xs first rest),
  ran ∙ ap (reverse_aux first) p.ran ∙ sym (reverse_aux-append xs first s.ran),
)

pub more-first : (xs ys : List String) (s t : State) → RanFirst xs s t → RanFirst (xs ++ ys) s t
more-first xs ys s t (first, rest, parts, ran) =
    (first, rest ++ ys, ap (λ zs. zs ++ ys) parts ∙ append_assoc first rest ys, ran)

module _ {B : Type 0} where
  pub chain :
      (xs ys : List String) (r : Res B) (s t u : State)
      → Ran xs s t
      → CarriedOut ys t r u
      → CarriedOut (xs ++ ys) s r u
  chain xs ys (ret b) s t u p q = record {
    ran = q.ran ∙ ap (reverse_aux ys) p.ran ∙ sym (reverse_aux-append xs ys s.ran);
    nodns = q.nodns ∙ p.nodns;
  }
  chain xs ys (stop c) s t u p q = chain-first xs ys s t u p q
  chain xs ys fault s t u p q = chain-first xs ys s t u p q

module _ {A B : Type 0} (nodns : Bool) where
  continue-CarriedOut :
      (r : Res A) (f : A → M B) (xs ys : List String) (s t : State)
      → s.flags.nodns ≡ nodns
      → CarriedOut xs s r t
      → ((a : A) → Runs nodns (f a) ys)
      → CarriedOut (xs ++ ys) s (continue r f t).0 (continue r f t).1
  continue-CarriedOut (ret a) f xs ys s t n h k =
      chain xs ys (f a t).0 s t (f a t).1 h ((k a).at t (h.nodns ∙ n))
  continue-CarriedOut (stop c) f xs ys s t n h k = more-first xs ys s t h
  continue-CarriedOut fault f xs ys s t n h k = more-first xs ys s t h

  pub >>=-Runs :
      (m : M A) (f : A → M B) (xs ys : List String)
      → Runs nodns m xs
      → ((a : A) → Runs nodns (f a) ys)
      → Runs nodns (m >>= f) (xs ++ ys)
  unfolding ◌>>=◌
  >>=-Runs m f xs ys p k = record {
    at = λ s n. continue-CarriedOut (m s).0 f xs ys s (m s).1 n (p.at s n) k;
  }

  -- An action that runs nothing in front of one that runs some commands.
  pub then-Runs :
      (m : M A) (f : A → M B) (ys : List String)
      → Respects Keeps m
      → ((a : A) → Runs nodns (f a) ys)
      → Runs nodns (m >>= f) ys
  then-Runs m f ys p k = >>=-Runs m f [] ys (quiet-Runs nodns m p) k

  -- An answer of the system that is known.
  pub ask-Runs :
      (answer : List Event → A) (e : Event) (a : A) (f : A → M B) (xs : List String)
      → ((t : List Event) → answer (e ∷ t) ≡ a)
      → Runs nodns (f a) xs
      → Runs nodns (ask answer e >>= f) xs
  unfolding ◌>>=◌
  ask-Runs answer e a f xs known p = record {
    at = λ s n.
        let s' = record s { trace = e ∷ s.trace } in
        subst (λ (x : A). CarriedOut xs s (f x s').0 (f x s').1) (sym (known s.trace))
          (traced nodns xs (f a s').0 s (f a s').1 (e ∷ s.trace) (p.at s' n));
  }

-- What runs nothing may follow.
pub then_quiet :
    {A B : Type 0} (nodns : Bool) (m : M A) (n : M B) (xs : List String)
    → Runs nodns m xs
    → Respects Keeps n
    → Runs nodns (m >> n) xs
then_quiet nodns m n xs p q =
    subst (Runs nodns (m >> n)) (append-nil xs)
      (>>=-Runs nodns m _ xs [] p (λ _. quiet-Runs nodns n q))

module _ {B : Type 0} (nodns : Bool) where
  pub get_flags-Runs :
      (f : Flags → M B) (xs : List String)
      → ((g : Flags) → g.nodns ≡ nodns → Runs nodns (f g) xs)
      → Runs nodns (get_flags >>= f) xs
  unfolding ◌>>=◌
  get_flags-Runs f xs k = record { at = λ s n. (k s.flags n).at s n }

one_run :
    {A : Type 0} (c : String) (r : Res A) (s t : State)
    → Keeps (record s { ran = c ∷ s.ran }) t
    → CarriedOut (c ∷ []) s r t
one_run c (ret a) s t k = record { ran = k.ran; nodns = k.nodns }
one_run c (stop n) s t k = (c ∷ [], [], refl, k.ran)
one_run c fault s t k = (c ∷ [], [], refl, k.ran)

module _ (env : Env) (nodns : Bool) where
  pub run_command-Runs : (c : String) (f : CmdFlags) → Runs nodns (run_command env c f) (c ∷ [])
  unfolding run_command record_run ◌>>=◌
  run_command-Runs c f = record {
    at = λ s n.
        let t = record s { ran = c ∷ s.ran } in
        let run =
          >>=-Respects keeps (run_command_open env c f) _ (run_command_open-Keeps env c f)
            (finish_run-Keeps env f) in
        one_run c _ s _ (run.at t);
  }
