-- ===== src/RunCommand/Output/Password.antt =====
-- A password that was given once is not asked for again (run_command.c).
use vpn_mgr.Base.{ℕ, ◌+◌, String, ◌<>◌, ◌≡◌, refl, true, false, List, [], ◌∷◌, Bool-cases, inl, inr}
use vpn_mgr.Base.Case.{case_eq_refl}
use vpn_mgr.Base.Chars.{case_eq}
use vpn_mgr.Base.Text.{valid}
use vpn_mgr.Process.{Env, State, ret, ◌>>=◌, print, prompt, write}
use vpn_mgr.RunCommand.Format.{get_var, set_var}
use vpn_mgr.RunCommand.Output.{
  run_okay, store_password, count_attempt, get_password, ask_password, keep_password,
  password_transact,
}

get_var-set_var : (k v : String) (m : List (String × String)) → get_var k (set_var k v m) ≡ v
unfolding get_var set_var
get_var-set_var k v [] = rw (case_eq_refl k) refl
get_var-set_var k v ((j, w) ∷ m) = elim (Bool-cases (case_eq j k)) [
  | inl same ↦ rw same (rw same refl)
  | inr other ↦ rw other (rw other (get_var-set_var k v m))
]

module _ (env : Env) (domain program : String) (id : ℕ) where
  -- What is stored for the user and the program.
  abbrev pub stored : State → String
  stored s = get_var (domain <> " " <> program) s.passwords

  valid-stored :
      (s : State)
      → s.flags.debug ≡ false
      → (password_transact env domain program id s).0 ≡ ret run_okay
      → let t = (password_transact env domain program id s).1 in
        (valid (stored t) ≡ true) × (t.flags.debug ≡ false)
  unfolding password_transact store_password count_attempt get_password ask_password keep_password
      ◌>>=◌
  valid-stored s d h = elim (Bool-cases (valid (stored s))) [
    | inl known ↦ simp (known, d) (refl, refl)
    | inr unknown ↦
        let answer = env.text (
          prompt ("~ePassword for ~y" <> domain <> "~0 ~e" <> program <> ":~0 ")
          ∷ print "\n"
          ∷ s.trace) in
        elim (Bool-cases (valid answer)) [
          | inl given ↦ simp (unknown, given, d, get_var-set_var) (refl, refl)
          | inr empty ↦ absurd (cc (simp (unknown, empty, d) at h))
        ]
  ]

  again :
      (t : State)
      → valid (stored t) ≡ true
      → t.flags.debug ≡ false
      → password_transact env domain program id t ≡ (
        ret run_okay,
        record t {
          attempts = t.attempts + 1;
          trace = write id "\n" ∷ write id (stored t) ∷ t.trace;
        },
      )
  unfolding password_transact store_password count_attempt get_password ask_password keep_password
      ◌>>=◌
  again t v d = simp (v, d) refl

  -- Without FLAG_DEBUG, after a call of `RunCommandPasswordTransact` that gave RUN_CMD_OKAY, a
  -- second call for the same user and program asks nothing: it sends the password that is
  -- stored, adds one to the number of attempts and gives RUN_CMD_OKAY.
  pub password_transact-again :
      (s : State)
      → s.flags.debug ≡ false
      → (password_transact env domain program id s).0 ≡ ret run_okay
      → let t = (password_transact env domain program id s).1 in
        password_transact env domain program id t ≡ (
          ret run_okay,
          record t {
            attempts = t.attempts + 1;
            trace = write id "\n" ∷ write id (stored t) ∷ t.trace;
          },
        )
  password_transact-again s d h =
      let (v, d') = valid-stored s d h in again (password_transact env domain program id s).1 v d'
