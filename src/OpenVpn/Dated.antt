-- ===== src/OpenVpn/Dated.antt =====
-- Lines of openvpn's output that begin with a date as 2024-05-01 and a time (openvpn.c).
use Prim.Native.String.{len}
use vpn_mgr.Base.{
  String, ◌≡◌, refl, ◌∙◌, ap, Bool, true, false, none, List, [], ◌∷◌, ◌==◌, eqb, any, if◌then◌else◌,
  arith,
}
use vpn_mgr.Common.{ssh_vpn_terminate, set_exit, signal_handler, deliver}
use vpn_mgr.OpenVpn.{
  other, skip_date_time, notice_of, act_on, show_line, open_vpn_loop, open_vpn_process,
}
use vpn_mgr.Process.{Env, Read, State, Stream, ret, M, ◌>>=◌, pure, get_flags}
use vpn_mgr.Vpn.{Vpn}

-- The words that the code looks for.
abbrev pub keywords : List String
keywords = "net_iface_up:" ∷ "TUN/TAP" ∷ "ERROR:" ∷ "WARNING:" ∷ "Initialization" ∷ "Exiting" ∷ []

-- A line of a date that has not three letters, a time, a word, and a second word that is not looked
-- for.
pub record Dated (env : Env) (line : String) : Type 0 where
  pub date : String
  pub time : String
  pub word : String
  pub second : String
  pub behind_date : String
  pub behind_time : String
  pub behind_word : String
  pub behind_second : String
  pub is_date : env.get_token line "\\S" ≡ (date, behind_date)
  pub is_time : env.get_token behind_date "\\S" ≡ (time, behind_time)
  pub is_word : env.get_token behind_time "\\S" ≡ (word, behind_word)
  pub is_second : env.get_token behind_word "\\S" ≡ (second, behind_second)
  pub long_date : eqb (len date) 3 ≡ false
  pub no_keyword : any (λ k. second == k) keywords ≡ false

abbrev pub AllDated : Env → List Read → Type 0
AllDated env [] = Unit
AllDated env (r ∷ reads) = Dated env (env.trim_right r.line) × AllDated env reads

module _ (env : Env) where
  skip_date_time-Dated :
      (line : String) (d : Dated env line) → skip_date_time env line ≡ d.behind_word
  unfolding skip_date_time
  skip_date_time-Dated line d =
      rw (d.is_date, skip_date_time)
        (rw d.long_date (
          ap (λ (x : String × String). (env.get_token x.1 "\\S").1) d.is_time
          ∙ ap (λ (x : String × String). x.1) d.is_word))

  notice_of-Dated : (line : String) → Dated env line → notice_of env line ≡ other
  unfolding notice_of
  notice_of-Dated line d =
      rw (skip_date_time-Dated line d) (rw d.is_second (let none_of = d.no_keyword in ground arith))

-- Where no session over SSH is active, the action returns the value, hands no command to
-- `RunCommand` and makes no session active.
record Idle {A : Type 0} (a : A) (m : M A) : Type 0 where
  at :
      (s : State)
      → s.active ≡ none
      → ((m s).0 ≡ ret a) × ((m s).1.ran ≡ s.ran) × ((m s).1.active ≡ none)

module _ {A B : Type 0} where
  >>=-Idle : (m : M A) (f : A → M B) (a : A) (b : B) → Idle a m → Idle b (f a) → Idle b (m >>= f)
  unfolding ◌>>=◌
  >>=-Idle m f a b p q = record {
    at = λ s n.
        let (e, h, k) = p.at s n in
        let (e', h', k') = q.at (m s).1 k in (rw e e', rw e (h' ∙ h), rw e k');
  }

module _ {A : Type 0} (a : A) where
  pure-Idle : Idle a (pure a)
  unfolding pure
  pure-Idle = record { at = λ s n. (refl, refl, n) }

  unless_exit-Idle : (m : M A) → Idle a m → Idle a (get_flags >>= λ f. if f.exit then pure a else m)
  unfolding ◌>>=◌
  unless_exit-Idle m p = record { at = λ s n. tested s.flags.exit s n }
    where
      tested :
          (b : Bool) (s : State)
          → s.active ≡ none
          → (((if b then pure a else m) s).0 ≡ ret a)
            × (((if b then pure a else m) s).1.ran ≡ s.ran)
            × (((if b then pure a else m) s).1.active ≡ none)
      tested true s n = (refl, refl, n)
      tested false s n = p.at s n

deliver-Idle : (r : Read) → Idle tt (deliver r)
unfolding deliver signal_handler set_exit ssh_vpn_terminate ◌>>=◌
deliver-Idle r = record { at = λ s n. (ground arith, ground arith, ground arith) }

show_line-Idle : (env : Env) (line : String) → Idle tt (show_line env line)
unfolding show_line ◌>>=◌
show_line-Idle env line = record { at = λ s n. (ground arith, ground arith, ground arith) }

module _ (env : Env) (v : Vpn) where
  loop-Idle :
      (reads : List Read) (dev : String)
      → AllDated env reads
      → Idle dev (open_vpn_loop env v reads dev)
  unfolding open_vpn_loop act_on
  loop-Idle [] dev h = pure-Idle dev
  loop-Idle (r ∷ reads) dev (d, h) = >>=-Idle (deliver r) _ tt dev (deliver-Idle r) (
      >>=-Idle (show_line env r.line) _ tt dev (show_line-Idle env r.line) (
        unless_exit-Idle dev _ (
          rw (notice_of-Dated env _ d)
            (>>=-Idle (pure dev) _ dev dev (pure-Idle dev) (loop-Idle reads dev h)))))

  -- Where `Active` is NULL, as no session over SSH runs, and every line of openvpn's output begins
  -- with a date as 2024-05-01, a time, a word and a second word that is not one of those that are
  -- looked for, `OpenVpnProcess` returns with no device found and has handed no command to
  -- `RunCommand`, whatever the first words behind the time are: the link is never brought up.
  pub open_vpn_process-AllDated :
      (output : Stream) (s : State)
      → s.active ≡ none
      → AllDated env output.reads
      → ((open_vpn_process env v output s).0 ≡ ret "????")
        × ((open_vpn_process env v output s).1.ran ≡ s.ran)
  unfolding open_vpn_process
  open_vpn_process-AllDated output s n h =
      let (returns, ran, active) = (loop-Idle output.reads "????" h).at s n in (returns, ran)
