-- ===== src/Process/Bind.antt =====
-- What is known of an action that has returned.
use vpn_mgr.Base.{◌≡◌, refl, ◌∙◌, sym, ap}
use vpn_mgr.Process.{Event, ◌>>◌, pure, emit, State, Res, ret, stop, fault, M, continue, ◌>>=◌}

module _ {A B : Type 0} where
  continue_ret :
      (r : Res A) (f : A → M B) (t : State) (b : B)
      → (continue r f t).0 ≡ ret b
      → (a : A) × (r ≡ ret a) × (continue r f t ≡ f a t)
  continue_ret (ret a) f t b h = (a, refl, refl)
  continue_ret (stop c) f t b h = cc
  continue_ret fault f t b h = cc

  -- If a chain returned, its first part did, and the chain is the rest from there.
  pub >>=-eq-ret :
      (m : M A) (f : A → M B) (s : State) (b : B)
      → ((m >>= f) s).0 ≡ ret b
      → (a : A) × ((m s).0 ≡ ret a) × ((m >>= f) s ≡ f a (m s).1)
  unfolding ◌>>=◌
  >>=-eq-ret m f s b h = continue_ret (m s).0 f (m s).1 b h

  continue-eq-ret :
      (r : Res A) (f : A → M B) (t : State) (a : A) → r ≡ ret a → continue r f t ≡ f a t
  continue-eq-ret r f t a h = ap (λ x. continue x f t) h

  -- A chain whose first part returned goes on with its value.
  pub >>=-ret :
      (m : M A) (f : A → M B) (s : State) (a : A) → (m s).0 ≡ ret a → (m >>= f) s ≡ f a (m s).1
  unfolding ◌>>=◌
  >>=-ret m f s a h = continue-eq-ret (m s).0 f (m s).1 a h

  -- If a chain returned, its first part did, and the rest returned the same from there.
  pub >>=-returns :
      (m : M A) (f : A → M B) (s : State) (b : B)
      → ((m >>= f) s).0 ≡ ret b
      → (a : A) × ((m s).0 ≡ ret a) × ((f a (m s).1).0 ≡ ret b)
  >>=-returns m f s b h =
      let (a, first, eq) = >>=-eq-ret m f s b h in
      (a, first, ap (λ (r : Res B × State). r.0) (sym eq) ∙ h)

-- An action that only records an event in front of a value.
pub then_pure :
    {A : Type 0} (e : Event) (a b : A) (s : State) → ((emit e >> pure a) s).0 ≡ ret b → a ≡ b
unfolding ◌>>=◌
then_pure e a b s h = cc

pub ret_inj : {A : Type 0} (a b : A) → ret a ≡ ret b → a ≡ b
ret_inj a b h = cc

pub pure_ret : {A : Type 0} (a b : A) (s : State) → (pure a s).0 ≡ ret b → a ≡ b
unfolding pure
pure_ret a b s h = cc
