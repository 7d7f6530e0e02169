-- ===== src/TunTap/Gone.antt =====
-- The device that `TunShutdown` leaves (tuntap.c), and what holds at the end of a chain of calls.
use mathlib.Core.Path.{subst}
use vpn_mgr.Base.{String, ◌<>◌, ◌≡◌, refl, ◌∙◌, sym, ap, Bool, List, [], ◌∷◌}
use vpn_mgr.Process.Bind.{>>=-eq-ret}
use vpn_mgr.Process.Keeps.{keeps}
use vpn_mgr.Process.Respects.{emit-Respects, pure-Respects}
use vpn_mgr.Process.{Env, State, Res, M, ret, ◌>>=◌, pure, emit}
use vpn_mgr.RunCommand.Format.{cmd_asroot}
use vpn_mgr.RunCommand.Launch.{run_command}
use vpn_mgr.RunCommand.Runs.{
  CarriedOut, Ran, Runs, quiet-Runs, >>=-Runs, then-Runs, run_command-Runs,
}
use vpn_mgr.TunTap.{tun_shutdown}

-- The last two commands that were run take the device down and delete it.
abbrev pub DeviceGone : String → State → Type 0
DeviceGone dev t =
    (earlier : List String) × (t.ran
      ≡ ("ip link delete dev " <> dev) ∷ ("ip link set dev " <> dev <> " down ") ∷ earlier)

-- What holds after a chain that returned, from what holds after its last part.
module _ {A : Type 0} (P : State → Type 0) where
  pub after :
      (m : M A) (f : A → M (Unit {0})) (s : State)
      → ((a : A) (t : State) → (m s).0 ≡ ret a → (f a t).0 ≡ ret tt → P (f a t).1)
      → ((m >>= f) s).0 ≡ ret tt
      → P ((m >>= f) s).1
  after m f s k h =
      let (a, first, eq) = >>=-eq-ret m f s tt h in
      subst (λ (r : Res (Unit {0}) × State). P r.1) (sym eq)
        (k a (m s).1 first (ap (λ (r : Res (Unit {0}) × State). r.0) (sym eq) ∙ h))

module _ (env : Env) where
  pub tun_shutdown-Runs :
      (nodns : Bool) (dev : String)
      → Runs nodns
          (tun_shutdown env dev)
          (("ip link set dev " <> dev <> " down ") ∷ ("ip link delete dev " <> dev) ∷ [])
  unfolding tun_shutdown
  tun_shutdown-Runs nodns dev = then-Runs nodns (emit _) _ _ (emit-Respects keeps _) λ _.
      >>=-Runs nodns (run_command env _ cmd_asroot) _ (_ ∷ []) (_ ∷ [])
        (run_command-Runs env nodns _ cmd_asroot)
        λ _.
          >>=-Runs nodns (run_command env _ cmd_asroot) _ (_ ∷ []) []
            (run_command-Runs env nodns _ cmd_asroot)
            (λ _. quiet-Runs nodns (pure tt) (pure-Respects keeps tt))

  carried_ret :
      (xs : List String) (r : Res (Unit {0})) (s t : State)
      → r ≡ ret tt
      → CarriedOut xs s r t
      → Ran xs s t
  carried_ret xs r s t e h = subst (λ (r : Res (Unit {0})). CarriedOut xs s r t) e h

  pub tun_shutdown-DeviceGone :
      (dev : String) (s : State)
      → (tun_shutdown env dev s).0 ≡ ret tt
      → DeviceGone dev (tun_shutdown env dev s).1
  tun_shutdown-DeviceGone dev s h = (
    s.ran,
    (carried_ret _ (tun_shutdown env dev s).0 s (tun_shutdown env dev s).1 h
        ((tun_shutdown-Runs s.flags.nodns dev).at s refl)).ran,
  )
