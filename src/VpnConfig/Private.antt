-- ===== src/VpnConfig/Private.antt =====
-- The modes of the files that `AddConfig` copies (vpn_config.c).
use vpn_mgr.Base.{
  ℕ, String, ◌<>◌, ◌≡◌, refl, ap, Bool, true, false, ◌&&◌, ◌==◌, eq_refl, Option, none, some, List,
  [], ◌∷◌, if◌then◌else◌,
}
use vpn_mgr.Base.Text.{begins, is_some, strip_prefix-append}
use vpn_mgr.Process.{
  Env, State, Stream, Event, Res, ret, stop, fault, M, pure, emit, ask, get_flags, ◌>>=◌, ◌>>◌,
  continue, print, access, make_dir, copy_file, chmod_file, open_stream, write, close, AccessMode,
}
use vpn_mgr.Vpn.{Vpn}
use vpn_mgr.VpnConfig.Files.{conf_dir, path_valid, keep_copy, add_config}
use vpn_mgr.VpnConfig.Write.{write_all, write_pieces, write_config}

-- What is known of the copies made so far: each has its mode, or the last one still waits for it, or
-- one was left without it.
pub data Copies : Type 0 where
  all_private : Copies
  awaits_mode : String → Copies
  exposed : Copies

-- A copy goes into the directory, and what is done next gives it the mode 0600.
unfoldable pub after_event : String → Event → Copies → Copies
after_event dir (copy_file path copy) all_private =
    if begins copy dir then awaits_mode copy else exposed
after_event dir (chmod_file path mode) (awaits_mode copy) =
    if path == copy && mode == "0600" then all_private else exposed
after_event dir _ all_private = all_private
after_event dir _ _ = exposed

unfoldable pub copies : String → List Event → Copies
unfolding after_event
copies dir [] = all_private
copies dir (e ∷ earlier) = after_event dir e (copies dir earlier)

-- If each copy had its mode before, so it has afterwards, also where the process ends.
pub record Guards {A : Type 0} (dir : String) (m : M A) : Type 0 where
  pub at : (s : State) → copies dir s.trace ≡ all_private → copies dir (m s).1.trace ≡ all_private

-- An event that is no copy.
pub record Harmless (dir : String) (e : Event) : Type 0 where
  pub at : (t : List Event) → copies dir t ≡ all_private → copies dir (e ∷ t) ≡ all_private

module _ (dir : String) where
  print-Harmless : (text : String) → Harmless dir (print text)
  unfolding copies after_event
  print-Harmless text = record { at = λ t h. rw h refl }

  access-Harmless : (path : String) (mode : AccessMode) → Harmless dir (access path mode)
  unfolding copies after_event
  access-Harmless path mode = record { at = λ t h. rw h refl }

  make_dir-Harmless : (path mode : String) → Harmless dir (make_dir path mode)
  unfolding copies after_event
  make_dir-Harmless path mode = record { at = λ t h. rw h refl }

  open_stream-Harmless : (path mode : String) → Harmless dir (open_stream path mode)
  unfolding copies after_event
  open_stream-Harmless path mode = record { at = λ t h. rw h refl }

  write-Harmless : (id : ℕ) (text : String) → Harmless dir (write id text)
  unfolding copies after_event
  write-Harmless id text = record { at = λ t h. rw h refl }

  close-Harmless : (id : ℕ) → Harmless dir (close id)
  unfolding copies after_event
  close-Harmless id = record { at = λ t h. rw h refl }

module _ {A : Type 0} (dir : String) where
  pure-Guards : (a : A) → Guards dir (pure a)
  unfolding pure
  pure-Guards a = record { at = λ s h. h }

  ask-Guards : (answer : List Event → A) (e : Event) → Harmless dir e → Guards dir (ask answer e)
  unfolding ask
  ask-Guards answer e p = record { at = λ s h. p.at s.trace h }

  if-Guards : (b : Bool) (m n : M A) → Guards dir m → Guards dir n → Guards dir (if b then m else n)
  if-Guards true m n p q = p
  if-Guards false m n p q = q

emit-Guards : (dir : String) (e : Event) → Harmless dir e → Guards dir (emit e)
unfolding emit
emit-Guards dir e p = record { at = λ s h. p.at s.trace h }

get_flags-Guards : (dir : String) → Guards dir get_flags
unfolding get_flags
get_flags-Guards dir = record { at = λ s h. h }

module _ {A B : Type 0} (dir : String) where
  continue-Guards :
      (r : Res A) (f : A → M B) (t : State)
      → copies dir t.trace ≡ all_private
      → ((a : A) → Guards dir (f a))
      → copies dir (continue r f t).1.trace ≡ all_private
  continue-Guards (ret a) f t h k = (k a).at t h
  continue-Guards (stop c) f t h k = h
  continue-Guards fault f t h k = h

  >>=-Guards :
      (m : M A) (f : A → M B) → Guards dir m → ((a : A) → Guards dir (f a)) → Guards dir (m >>= f)
  unfolding ◌>>=◌
  >>=-Guards m f p k = record { at = λ s h. continue-Guards (m s).0 f (m s).1 (p.at s h) k }

ruleset guards_rules = (
  print-Harmless, access-Harmless, make_dir-Harmless, open_stream-Harmless, write-Harmless,
  close-Harmless, pure-Guards, ask-Guards, if-Guards, emit-Guards, get_flags-Guards, >>=-Guards,
)

-- A copy into the directory, and the mode behind it.
copied-Guards :
    (dir path copy : String)
    → begins copy dir ≡ true
    → Guards dir (emit (copy_file path copy) >> emit (chmod_file copy "0600"))
unfolding copies after_event ◌>>=◌
copied-Guards dir path copy inside = record { at = λ s h. rw (h, inside, eq_refl copy) refl }

write_all-Guards : (dir : String) (id : ℕ) (pieces : List String) → Guards dir (write_all id pieces)
unfolding write_all
write_all-Guards dir id [] = pure-Guards dir tt
write_all-Guards dir id (piece ∷ pieces) =
    >>=-Guards dir (emit (write id piece)) _ (emit-Guards dir _ (write-Harmless dir id piece))
      (λ _. write_all-Guards dir id pieces)

module _ (env : Env) (dir : String) where
  path_valid-Guards : (path : String) → Guards dir (path_valid env path)
  unfolding path_valid
  path_valid-Guards path = search guards_rules depth 16

  keep_copy-Guards :
      (path copy : String) → begins copy dir ≡ true → Guards dir (keep_copy env path copy)
  unfolding keep_copy
  keep_copy-Guards path copy inside =
      search (guards_rules, path_valid-Guards, copied-Guards) depth 16

  write_pieces-Guards :
      (pieces : List String) (s : Option Stream) → Guards dir (write_pieces env pieces s)
  unfolding write_pieces
  write_pieces-Guards pieces none = pure-Guards dir tt
  write_pieces-Guards pieces (some s) = search (guards_rules, write_all-Guards) depth 16

  write_config-Guards : (v : Vpn) → Guards dir (write_config env v)
  unfolding write_config
  write_config-Guards v = search (guards_rules, write_pieces-Guards) depth 16

-- A name behind the directory is inside it.
inside_dir : (dir name : String) → begins (dir <> name) dir ≡ true
inside_dir dir name = ap is_some (strip_prefix-append dir name)

module _ (env : Env) where
  whole-Guards : (v : Vpn) → Guards (conf_dir env.home_dir v.name) (add_config env v)
  unfolding add_config
  whole-Guards v = search (guards_rules, inside_dir, keep_copy-Guards, write_config-Guards) depth 24

  -- Where all files that were copied have gone into the connection's directory and were given the
  -- mode 0600 right after, the same holds after `AddConfig`, whatever the system answers.
  pub add_config-Guards :
      (v : Vpn) (s : State)
      → copies (conf_dir env.home_dir v.name) s.trace ≡ all_private
      → copies (conf_dir env.home_dir v.name) (add_config env v s).1.trace ≡ all_private
  add_config-Guards v s h = (whole-Guards v).at s h
