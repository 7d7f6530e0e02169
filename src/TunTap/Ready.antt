-- ===== src/TunTap/Ready.antt =====
-- What is known of a device that `TunSetup` has set up (tuntap.c, net.c).
use mathlib.Core.Path.{subst}
use vpn_mgr.Base.{String, ◌<>◌, ◌≡◌, ◌∙◌, sym, ap, Bool, true, false, List, ◌∷◌, if◌then◌else◌}
use vpn_mgr.Common.{log_event}
use vpn_mgr.Net.{net_dev_exists}
use vpn_mgr.Process.Bind.{>>=-eq-ret}
use vpn_mgr.Process.{Env, State, Res, ret, M, pure, emit, ◌>>=◌, ◌>>◌, log_error}
use vpn_mgr.RunCommand.Format.{cmd_asroot}
use vpn_mgr.RunCommand.Launch.Frame.{ran-run_command}
use vpn_mgr.RunCommand.Launch.{run_command}
use vpn_mgr.RunCommand.Output.{
  RunResult, run_begin, run_okay, run_unknown, run_auth_fail, run_fail, run_abort,
}
use vpn_mgr.TunTap.{create_device, activate_device, tun_setup}

-- What holds after a chain that returned a value, from what holds after its last part.
module _ {A B : Type 0} (P : State → Type 0) (b : B) where
  returned :
      (m : M A) (f : A → M B) (s : State)
      → ((a : A) → (m s).0 ≡ ret a → (f a (m s).1).0 ≡ ret b → P (f a (m s).1).1)
      → ((m >>= f) s).0 ≡ ret b
      → P ((m >>= f) s).1
  returned m f s k h =
      let (a, first, eq) = >>=-eq-ret m f s b h in
      subst (λ (r : Res B × State). P r.1) (sym eq)
        (k a first (ap (λ (r : Res B × State). r.0) (sym eq) ∙ h))

module _ (env : Env) (name : String) where
  -- The last command that was run sets the device up, and the last thing that was done is to look
  -- for it in the list of devices, where it was found.
  abbrev pub DeviceReady : State → Type 0
  DeviceReady t =
      (u : State) × (earlier : List String) × (u.ran ≡ ("ip link set up dev " <> name) ∷ earlier)
      × (net_dev_exists env name u ≡ (ret true, t))

  looked :
      (u : State) (earlier : List String) (exists : Bool)
      → u.ran ≡ ("ip link set up dev " <> name) ∷ earlier
      → (net_dev_exists env name u).0 ≡ ret exists
      → (pure (if exists then run_okay else run_fail) (net_dev_exists env name u).1).0
        ≡ ret run_okay
      → DeviceReady (pure (if exists then run_okay else run_fail) (net_dev_exists env name u).1).1
  unfolding pure
  looked u earlier true ran found h =
      (u, earlier, ran, ap (λ r. (r, (net_dev_exists env name u).1)) found)
  looked u earlier false ran found h = absurd cc

  logged :
      (text : String) (status : RunResult) (s : State)
      → ((log_event log_error "TUN" text >> pure status) s).0 ≡ ret run_okay
      → status ≡ run_okay
  unfolding log_event ◌>>=◌
  logged text status s h = cc

  activated :
      (address : String) (status : RunResult) (s : State)
      → (activate_device env name address status s).0 ≡ ret run_okay
      → DeviceReady (activate_device env name address status s).1
  unfolding activate_device
  activated address run_okay s h =
      returned DeviceReady run_okay _ _ s
        (λ _ _ h.
          returned DeviceReady run_okay (emit _) _ _
            (λ _ _ h.
              returned DeviceReady run_okay (run_command env _ cmd_asroot) _ _
                (λ _ _ h.
                  returned DeviceReady run_okay (net_dev_exists env name) _ _
                    (λ exists found h.
                      looked _ _ exists (ran-run_command env _ cmd_asroot _) found h)
                    h)
                h)
            h)
        h
  activated address run_begin s h = absurd (cc (logged _ run_begin s h))
  activated address run_unknown s h = absurd (cc (logged _ run_unknown s h))
  activated address run_auth_fail s h = absurd (cc (logged _ run_auth_fail s h))
  activated address run_fail s h = absurd (cc (logged _ run_fail s h))
  activated address run_abort s h = absurd (cc (logged _ run_abort s h))

  -- Where `TunSetup` gives RUN_CMD_OKAY, the last command that it handed to `RunCommand` sets the
  -- device up, and the last thing that it did is to look for the device in the system's list of
  -- devices, where it found it.
  pub tun_setup-DeviceReady :
      (type address : String) (s : State)
      → (tun_setup env type name address s).0 ≡ ret run_okay
      → DeviceReady (tun_setup env type name address s).1
  unfolding tun_setup
  tun_setup-DeviceReady type address s h =
      returned DeviceReady run_okay (net_dev_exists env name) _ s
        (λ exists _ h.
          returned DeviceReady run_okay (create_device env type name exists) _ _
            (λ status _ h. activated address status _ h) h)
        h
