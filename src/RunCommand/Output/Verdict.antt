-- ===== src/RunCommand/Output/Verdict.antt =====
-- Which line of a command's output decides how it was started (run_command.c).
use vpn_mgr.Base.{
  ℕ, String, ◌≡◌, refl, ◌∙◌, ap, true, false, Option, none, some, List, [], ◌∷◌, ◌++◌, ◌⊎◌,
  Bool-cases, inl, inr,
}
use vpn_mgr.Base.Text.{valid}
use vpn_mgr.Common.{deliver}
use vpn_mgr.Process.{Flags, Read, Env, State, ret, ◌>>=◌}
use vpn_mgr.RunCommand.Output.{
  RunResult, run_begin, run_okay, run_auth_fail, Output, asks_password, refused, started, finished,
  blank, text, output_of, Next, breaks, goes_on, after_output, handle_output, handle_line,
  read_loop,
}

-- What a line decides, and nothing for a request for a password or any other text.
abbrev pub decision : Output → Option RunResult
decision refused = some run_auth_fail
decision started = some run_okay
decision finished = some run_begin
decision _ = none

module _ (env : Env) where
  -- The meaning of a line that was read.
  abbrev pub meaning : Read → Output
  meaning r = output_of (env.trim_right (env.trim_left r.line))

  -- No signal came, and the line is empty, or neither decides nor asks for a password.
  abbrev pub Idle : Read → Type 0
  Idle r =
      (r.sigint ≡ false)
      × ((valid r.line ≡ false)
          ⊎ ((valid r.line ≡ true) × ((meaning r ≡ text) ⊎ (meaning r ≡ blank))))

  abbrev pub AllIdle : List Read → Type 0
  AllIdle [] = Unit
  AllIdle (r ∷ reads) = Idle r × AllIdle reads

  -- A line that decides, without a signal.
  abbrev pub Decides : RunResult → Read → Type 0
  Decides result r =
      (r.sigint ≡ false) × ((valid r.line ≡ true) × (decision (meaning r) ≡ some result))

  module _ (domain program : String) (id : ℕ) where
    handle_line-Idle :
        (r : Read) (s : State)
        → Idle r
        → s.flags.exit ≡ false
        → (deliver r s ≡ (ret tt, s))
          × ((handle_line env domain program id r.line run_begin s).0 ≡ ret (goes_on run_begin))
          × ((handle_line env domain program id r.line run_begin s).1.flags ≡ s.flags)
    unfolding handle_line handle_output deliver ◌>>=◌
    handle_line-Idle r s (q, inl empty) x = simp (q, empty) (refl, refl, refl)
    handle_line-Idle r s (q, inr (v, inl t)) x = elim (Bool-cases s.flags.debug) [
      | inl d ↦ simp (q, v, t, d) (refl, refl, refl)
      | inr d ↦ simp (q, v, t, d) (refl, refl, refl)
    ]
    handle_line-Idle r s (q, inr (v, inr t)) x = elim (Bool-cases s.flags.debug) [
      | inl d ↦ simp (q, v, t, d) (refl, refl, refl)
      | inr d ↦ simp (q, v, t, d) (refl, refl, refl)
    ]

    decided_output :
        (o : Output) (shown : String) (result : RunResult) (s : State)
        → decision o ≡ some result
        → (handle_output env domain program id o shown run_begin s).0 ≡ ret (breaks result)
    unfolding handle_output ◌>>=◌
    decided_output refused shown result s h = cc
    decided_output started shown result s h = cc
    decided_output finished shown result s h = cc
    decided_output asks_password shown result s h = absurd (cc)
    decided_output blank shown result s h = absurd (cc)
    decided_output text shown result s h = absurd (cc)

    handle_line-Decides :
        (r : Read) (result : RunResult) (s : State)
        → Decides result r
        → (deliver r s ≡ (ret tt, s))
          × ((handle_line env domain program id r.line run_begin s).0 ≡ ret (breaks result))
    unfolding handle_line deliver ◌>>=◌
    handle_line-Decides r result s (q, (v, h)) = elim (Bool-cases s.flags.debug) [
      | inl d ↦ simp (q, v, d) (refl, decided_output (meaning r) r.line result _ h)
      | inr d ↦ simp (q, v, d) (refl, decided_output (meaning r) r.line result _ h)
    ]

    -- A round of the loop, from what its line gives.
    round :
        (r : Read) (reads : List Read) (next : Next) (s : State)
        → deliver r s ≡ (ret tt, s)
        → (handle_line env domain program id r.line run_begin s).0 ≡ ret next
        → read_loop env domain program id (r ∷ reads) run_begin s
          ≡ let t = (handle_line env domain program id r.line run_begin s).1 in
            after_output next t.flags.exit reads (read_loop env domain program id reads) t
    unfolding read_loop ◌>>=◌
    round r reads next s d h = simp d (simp h refl)

    -- Without signals and with FLAG_EXIT clear, the first line that refuses the password,
    -- says that the command starts or says that `su` or `sudo` is done decides the result of
    -- `RunCommandReadLoop`, where no line before it asks for a password; what stands behind
    -- it is left to be read.
    pub read_loop-decided :
        (idle : List Read) (r : Read) (rest : List Read) (result : RunResult) (s : State)
        → AllIdle idle
        → Decides result r
        → s.flags.exit ≡ false
        → (read_loop env domain program id (idle ++ r ∷ rest) run_begin s).0 ≡ ret (result, rest)
    unfolding after_output ◌>>=◌
    read_loop-decided [] r rest result s i h x =
        let (quiet, decided) = handle_line-Decides r result s h in
        ap (λ p. p.0) (round r rest (breaks result) s quiet decided)
    read_loop-decided (y ∷ idle) r rest result s (i, more) h x =
        let (quiet, goes, flags) = handle_line-Idle y s i x in
        let t = (handle_line env domain program id y.line run_begin s).1 in
        let e = ap (λ (f : Flags). f.exit) flags ∙ x in
        ap (λ p. p.0) (round y (idle ++ r ∷ rest) (goes_on run_begin) s quiet goes)
        ∙ simp e (read_loop-decided idle r rest result t more h e)

    -- Without signals and with FLAG_EXIT clear, `RunCommandReadLoop` returns RUN_CMD_BEGIN
    -- where the output ends and no line of it decides or asks for a password.
    read_loop-undecided :
        (idle : List Read) (s : State)
        → AllIdle idle
        → s.flags.exit ≡ false
        → (read_loop env domain program id idle run_begin s).0 ≡ ret (run_begin, [])
    unfolding after_output ◌>>=◌
    read_loop-undecided [] s i x = unfold read_loop in refl
    read_loop-undecided (y ∷ idle) s (i, more) x =
        let (quiet, goes, flags) = handle_line-Idle y s i x in
        let t = (handle_line env domain program id y.line run_begin s).1 in
        let e = ap (λ (f : Flags). f.exit) flags ∙ x in
        ap (λ p. p.0) (round y idle (goes_on run_begin) s quiet goes)
        ∙ simp e (read_loop-undecided idle t more e)
