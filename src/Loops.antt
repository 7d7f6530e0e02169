-- ===== src/Loops.antt =====
-- The loops that wait for input until FLAG_EXIT is set (run_command.c, wireguard.c, ssh.c,
-- openvpn.c).
use mathlib.Core.Path.{fun_ext}
use vpn_mgr.Base.{String, ◌<>◌, ◌≡◌, refl, ap, true, List, [], ◌∷◌, ◌++◌, if◌then◌else◌}
use vpn_mgr.Base.Text.{valid}
use vpn_mgr.Common.Interrupt.{deliver-exit}
use vpn_mgr.Common.{deliver}
use vpn_mgr.OpenVpn.{show_line, act_on, notice_of, open_vpn_loop}
use vpn_mgr.Process.Keeps.{Keeps, keeps}
use vpn_mgr.Process.Respects.{Respects, respects_rules}
use vpn_mgr.Process.{
  Read, Env, State, Res, ret, stop, fault, M, continue, ◌>>=◌, ◌>>◌, pure, emit, get_flags, print,
}
use vpn_mgr.RunCommand.Launch.{show_output, drain}
use vpn_mgr.RunCommand.Launch.Frame.{show_output-Keeps}
use vpn_mgr.Ssh.Session.{process_loop}
use vpn_mgr.Vpn.{Vpn}
use vpn_mgr.Wireguard.{wait_for_user}

-- The two actions do the same once FLAG_EXIT is set.
record Alike {A : Type 0} (m n : M A) : Type 0 where
  at : (s : State) → s.flags.exit ≡ true → m s ≡ n s

module _ {A B : Type 0} where
  continue-Alike :
      (r : Res A) (f g : A → M B) (t : State)
      → t.flags.exit ≡ true
      → ((a : A) → Alike (f a) (g a))
      → continue r f t ≡ continue r g t
  continue-Alike (ret a) f g t h k = (k a).at t h
  continue-Alike (stop c) f g t h k = refl
  continue-Alike fault f g t h k = refl

  -- Behind an action that sets FLAG_EXIT, only what is done with it set matters.
  >>=-cut :
      (m : M A) (f g : A → M B)
      → ((s : State) → (m s).1.flags.exit ≡ true)
      → ((a : A) → Alike (f a) (g a))
      → (m >>= f) ≡ (m >>= g)
  unfolding ◌>>=◌
  >>=-cut m f g h k = fun_ext (λ s. continue-Alike (m s).0 f g (m s).1 (h s) k)

  >>=-Alike :
      (m : M A) (f g : A → M B)
      → Respects Keeps m
      → ((a : A) → Alike (f a) (g a))
      → Alike (m >>= f) (m >>= g)
  unfolding ◌>>=◌
  >>=-Alike m f g p k = record {
    at = λ s h. continue-Alike (m s).0 f g (m s).1 ((p.at s).exit h) k;
  }

exit-Alike :
    {A : Type 0} (p a b : M A)
    → Alike
        (get_flags >>= λ f. if f.exit then p else a)
        (get_flags >>= λ f. if f.exit then p else b)
unfolding ◌>>=◌
exit-Alike p a b = record { at = λ s h. simp h refl }

-- What `SSHProcess` prints of a line.
abbrev print_line : String → M (Unit {0})
print_line line = if valid line then emit (print (line <> "\n")) else pure tt

print_line-Keeps : (line : String) → Respects Keeps (print_line line)
print_line-Keeps line = search (respects_rules, keeps) depth 12

show_line-Keeps : (env : Env) (line : String) → Respects Keeps (show_line env line)
unfolding show_line
show_line-Keeps env line = search (respects_rules, keeps) depth 12

-- A round of the loop of `OpenVpnProcess`, before the rest of its rounds.
abbrev open_vpn_round : Env → Vpn → Read → (String → M String) → String → M String
open_vpn_round env v x again dev = do
  deliver x
  show_line env x.line
  f ← get_flags
  if f.exit
      then pure dev
      else do dev' ← act_on env (notice_of env (env.trim_right x.line)) v dev; again dev'

module _ (env : Env) (r : Read) (rest : List Read) (h : r.sigint ≡ true) where
  wait_for_user-cut :
      (before : List Read)
      → wait_for_user env (before ++ r ∷ rest) ≡ wait_for_user env (before ++ r ∷ [])
  unfolding wait_for_user
  wait_for_user-cut [] = >>=-cut (deliver r) _ _ (λ s. deliver-exit r s h) (λ _. exit-Alike _ _ _)
  wait_for_user-cut (x ∷ before) = rw (wait_for_user-cut before) refl

  drain-cut : (before : List Read) → drain (before ++ r ∷ rest) ≡ drain (before ++ r ∷ [])
  unfolding drain
  drain-cut [] =
      >>=-cut (deliver r) _ _ (λ s. deliver-exit r s h)
        λ _. >>=-Alike (show_output r.line) _ _ (show_output-Keeps r.line) (λ _. exit-Alike _ _ _)
  drain-cut (x ∷ before) = rw (drain-cut before) refl

  process_loop-cut :
      (before : List Read)
      → process_loop env (before ++ r ∷ rest) ≡ process_loop env (before ++ r ∷ [])
  unfolding process_loop
  process_loop-cut [] =
      >>=-cut (deliver r) _ _ (λ s. deliver-exit r s h)
        λ _.
          >>=-Alike (print_line (env.trim_right r.line)) _ _
            (print_line-Keeps (env.trim_right r.line)) (λ _. exit-Alike _ _ _)
  process_loop-cut (x ∷ before) = rw (process_loop-cut before) refl

  open_vpn_loop-cut :
      (v : Vpn) (before : List Read)
      → open_vpn_loop env v (before ++ r ∷ rest) ≡ open_vpn_loop env v (before ++ r ∷ [])
  unfolding open_vpn_loop
  open_vpn_loop-cut v [] = fun_ext λ dev.
      >>=-cut (deliver r) _ _ (λ s. deliver-exit r s h)
        λ _.
          >>=-Alike (show_line env r.line) _ _ (show_line-Keeps env r.line) (λ _. exit-Alike _ _ _)
  open_vpn_loop-cut v (x ∷ before) = fun_ext λ dev.
      ap (λ (again : String → M String). open_vpn_round env v x again dev)
        (open_vpn_loop-cut v before)

  -- Once SIGINT comes with a line that is read, the loops that show a command's output, wait
  -- for the user of a Wireguard link, follow an SSH session and follow OpenVPN's output do the
  -- same whatever would be read behind that line: none of it is used.
  pub loops-cut :
      (v : Vpn) (before : List Read)
      → (drain (before ++ r ∷ rest) ≡ drain (before ++ r ∷ []))
        × (wait_for_user env (before ++ r ∷ rest) ≡ wait_for_user env (before ++ r ∷ []))
        × (process_loop env (before ++ r ∷ rest) ≡ process_loop env (before ++ r ∷ []))
        × (open_vpn_loop env v (before ++ r ∷ rest) ≡ open_vpn_loop env v (before ++ r ∷ []))
  loops-cut v before = (
    drain-cut before,
    wait_for_user-cut before,
    process_loop-cut before,
    open_vpn_loop-cut v before,
  )
