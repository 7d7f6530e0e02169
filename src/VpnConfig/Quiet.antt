-- ===== src/VpnConfig/Quiet.antt =====
-- Actions that return and write to no stream (vpn_config.c).
use vpn_mgr.Base.{
  ℕ, String, ◌≡◌, refl, ◌∙◌, ◌⊎◌, inl, inr, Bool, true, false, List, ◌∷◌, if◌then◌else◌,
}
use vpn_mgr.Process.{
  Env, State, Event, Res, M, ret, pure, emit, ask, ◌>>=◌, ◌>>◌, continue, print, AccessMode, access,
  f_ok, r_ok, make_dir, copy_file, chmod_file,
}
use vpn_mgr.VpnConfig.Files.{path_valid, keep_copy}
use vpn_mgr.VpnConfig.Written.{file_text}

-- From s, r returns a value of which P holds, with the flags and the texts of all streams as they
-- were.
pub record QuietFrom {A : Type 0} (P : A → Type 0) (s : State) (r : Res A × State) : Type 0 where
  pub value : A
  pub returns : r.0 ≡ ret value
  pub holds : P value
  pub flags : r.1.flags ≡ s.flags
  pub text : (id : ℕ) → file_text id r.1.trace ≡ file_text id s.trace

pub record Quiet {A : Type 0} (P : A → Type 0) (m : M A) : Type 0 where
  pub at : (s : State) → QuietFrom P s (m s)

-- An event that is no write.
pub record Mute (e : Event) : Type 0 where
  pub text : (id : ℕ) (t : List Event) → file_text id (e ∷ t) ≡ file_text id t

module _ {A : Type 0} where
  pub pure-Quiet : (P : A → Type 0) (a : A) → P a → Quiet P (pure a)
  unfolding pure
  pure-Quiet P a h = record {
    at = λ s. record { value = a; returns = refl; holds = h; flags = refl; text = λ id. refl };
  }

  pub ask-Quiet : (answer : List Event → A) (e : Event) → Mute e → Quiet (λ _. Unit) (ask answer e)
  unfolding ask
  ask-Quiet answer e m = record {
    at = λ s. record {
      value = answer (e ∷ s.trace);
      returns = refl;
      holds = tt;
      flags = refl;
      text = λ id. m.text id s.trace;
    };
  }

  pub if-Quiet :
      (P : A → Type 0) (b : Bool) (m n : M A) → Quiet P m → Quiet P n → Quiet P (if b then m else n)
  if-Quiet P true m n h k = h
  if-Quiet P false m n h k = k

pub emit-Quiet : (e : Event) → Mute e → Quiet (λ _. Unit) (emit e)
unfolding emit
emit-Quiet e m = record {
  at = λ s. record {
    value = tt;
    returns = refl;
    holds = tt;
    flags = refl;
    text = λ id. m.text id s.trace;
  };
}

module _ {A B : Type 0} where
  chain :
      (P : A → Type 0) (Q : B → Type 0) (s : State) (r : Res A × State) (f : A → M B)
      → QuietFrom P s r
      → ((a : A) → P a → Quiet Q (f a))
      → QuietFrom Q s (continue r.0 f r.1)
  chain P Q s r f h k =
      let q = (k h.value h.holds).at r.1 in
      record {
        value = q.value;
        returns = rw h.returns q.returns;
        holds = q.holds;
        flags = rw h.returns (q.flags ∙ h.flags);
        text = λ id. rw h.returns (q.text id ∙ h.text id);
      }

  pub >>=-Quiet :
      (P : A → Type 0) (Q : B → Type 0) (m : M A) (f : A → M B)
      → Quiet P m
      → ((a : A) → P a → Quiet Q (f a))
      → Quiet Q (m >>= f)
  unfolding ◌>>=◌
  >>=-Quiet P Q m f h k = record { at = λ s. chain P Q s (m s) f (h.at s) k }

  -- What holds of the rest, from any state with the same flags and texts, holds of the whole.
  pub after-Quiet :
      (P : A → Type 0) (G : Res B × State → Type 0) (m : M A) (f : A → M B) (s : State)
      → Quiet P m
      → ((a : A) (u : State)
          → P a
          → u.flags ≡ s.flags
          → ((id : ℕ) → file_text id u.trace ≡ file_text id s.trace)
          → G (f a u))
      → G ((m >>= f) s)
  unfolding ◌>>=◌
  after-Quiet P G m f s h k =
      let q = h.at s in rw q.returns (k q.value (m s).1 q.holds q.flags q.text)

access-Mute : (path : String) (mode : AccessMode) → Mute (access path mode)
unfolding file_text
access-Mute path mode = record { text = λ id t. refl }

print-Mute : (text : String) → Mute (print text)
unfolding file_text
print-Mute text = record { text = λ id t. refl }

copy_file-Mute : (path copy : String) → Mute (copy_file path copy)
unfolding file_text
copy_file-Mute path copy = record { text = λ id t. refl }

chmod_file-Mute : (path mode : String) → Mute (chmod_file path mode)
unfolding file_text
chmod_file-Mute path mode = record { text = λ id t. refl }

pub make_dir-Mute : (path mode : String) → Mute (make_dir path mode)
unfolding file_text
make_dir-Mute path mode = record { text = λ id t. refl }

module _ (env : Env) where
  complain : (text : String) → Quiet (λ _. Unit) (emit (print text) >> pure false)
  complain text = >>=-Quiet _ _ _ _ (emit-Quiet _ (print-Mute text)) λ _ _. pure-Quiet _ false tt

  path_valid-Quiet : (path : String) → Quiet (λ _. Unit) (path_valid env path)
  unfolding path_valid
  path_valid-Quiet path = if-Quiet _ _ _ _ (pure-Quiet _ false tt) (
      >>=-Quiet _ _ _ _ (ask-Quiet _ _ (access-Mute path f_ok)) λ exists _.
        if-Quiet _ _ _ _ (complain _) (
          >>=-Quiet _ _ _ _ (ask-Quiet _ _ (access-Mute path r_ok))
            λ readable _. if-Quiet _ _ _ _ (complain _) (pure-Quiet _ true tt)))

  -- What is kept of a file is its path or the copy's.
  pub keep_copy-Quiet :
      (path copy : String) → Quiet (λ kept. (kept ≡ path) ⊎ (kept ≡ copy)) (keep_copy env path copy)
  unfolding keep_copy
  keep_copy-Quiet path copy = >>=-Quiet _ _ _ _ (path_valid-Quiet path) λ fine _.
      if-Quiet _ fine _ _
        (>>=-Quiet _ _ _ _
          (>>=-Quiet _ (λ _. Unit) _ _ (emit-Quiet _ (copy_file-Mute path copy))
            λ _ _. emit-Quiet _ (chmod_file-Mute copy "0600"))
          λ _ _. pure-Quiet _ copy (inr refl))
        (pure-Quiet _ path (inl refl))
