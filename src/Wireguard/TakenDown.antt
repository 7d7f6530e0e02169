-- ===== src/Wireguard/TakenDown.antt =====
-- How a Wireguard link ends (wireguard.c).
use vpn_mgr.Base.{
  String, ◌≡◌, refl, sym, Bool, true, false, List, ◌∷◌, ◌⊎◌, inl, inr, Bool-cases, if◌then◌else◌,
}
use vpn_mgr.Base.Text.{valid}
use vpn_mgr.Net.{net_dev_find_next}
use vpn_mgr.Process.{Env, Event, Read, State, M, ret, ◌>>◌, pure, emit, print}
use vpn_mgr.RunCommand.Format.{cmd_asroot}
use vpn_mgr.RunCommand.Launch.{run_command}
use vpn_mgr.TunTap.{is_okay, tun_shutdown}
use vpn_mgr.UpDown.{vpn_up}
use vpn_mgr.Vpn.{Vpn}
use vpn_mgr.Wireguard.{
  wireguard_format_command, wait_for_user, run_link, setup_device, wireguard_up,
}
use vpn_mgr.Process.Bind.{ret_inj}
use vpn_mgr.TunTap.Gone.{after, DeviceGone, tun_shutdown-DeviceGone}

-- The last thing that was done is to print a text.
abbrev pub Said : String → State → Type 0
Said text t = (earlier : List Event) × (t.trace ≡ print text ∷ earlier)

emit-last : (text : String) (s : State) → Said text (emit (print text) s).1
unfolding emit
emit-last text s = (s.trace, refl)

module _ (env : Env) where
  -- How the link of a device ends.
  abbrev pub LinkEnded : String → State → Type 0
  LinkEnded dev t = DeviceGone dev t ⊎ Said "~rFATAL:~0 wireguard setup failed\n" t

  -- The link once its device is set up, and `wg` has run.
  abbrev pub linked : Vpn → String → List Read → Bool → M (Unit {0})
  linked v dev terminal okay =
      if okay
      then vpn_up env v dev
        >> wait_for_user env terminal
        >> emit (print "~cWIREGUARD:~0 shutting down\n")
        >> tun_shutdown env dev
      else emit (print "~rFATAL:~0 wireguard setup failed\n")

  linked-LinkEnded :
      (v : Vpn) (dev : String) (terminal : List Read) (okay : Bool) (s : State)
      → (linked v dev terminal okay s).0 ≡ ret tt
      → LinkEnded dev (linked v dev terminal okay s).1
  linked-LinkEnded v dev terminal true s h =
      after (LinkEnded dev)
        (vpn_up env v dev
          >> wait_for_user env terminal
          >> emit (print "~cWIREGUARD:~0 shutting down\n"))
        (λ _. tun_shutdown env dev) s (λ _ t _ h. inl (tun_shutdown-DeviceGone env dev t h)) h
  linked-LinkEnded v dev terminal false s h = inr (emit-last _ s)

  run_link-LinkEnded :
      (v : Vpn) (dev : String) (terminal : List Read) (s : State)
      → (run_link env v dev terminal s).0 ≡ ret tt
      → LinkEnded dev (run_link env v dev terminal s).1
  unfolding run_link
  run_link-LinkEnded v dev terminal s h =
      after (LinkEnded dev) (wireguard_format_command env v dev) _ s
        (λ command t _ h.
          after (LinkEnded dev) (run_command env command cmd_asroot) _ t
            (λ status u _ h. linked-LinkEnded v dev terminal (is_okay status) u h) h)
        h

  -- The device of a context: its own, or one that is free.
  abbrev device_of : Vpn → M String
  device_of v = if valid v.dev then pure v.dev else net_dev_find_next env "wg"

  -- The device is the context's, where it names one.
  abbrev pub Chosen : Vpn → String → Type 0
  Chosen v dev = (dev ≡ v.dev) ⊎ (valid v.dev ≡ false)

  chosen : (v : Vpn) (dev : String) (s : State) → (device_of v s).0 ≡ ret dev → Chosen v dev
  unfolding pure
  chosen v dev s h = elim (Bool-cases (valid v.dev)) [
    | inl named ↦ inl (sym (ret_inj v.dev dev (rw named at h)))
    | inr free ↦ inr free
  ]

  -- How a run of `WireguardUp` ends.
  abbrev pub TakenDown : Vpn → State → Type 0
  TakenDown v t =
      ((dev : String) × Chosen v dev × LinkEnded dev t)
      ⊎ Said "~rFATAL:~0 no suitable tunnel device\n" t

  with_device :
      (v : Vpn) (dev : String) (terminal : List Read) (okay : Bool) (s : State)
      → Chosen v dev
      → ((if okay
            then setup_device env v dev >> run_link env v dev terminal
            else emit (print "~rFATAL:~0 no suitable tunnel device\n"))
          s).0
        ≡ ret tt
      → TakenDown v
          ((if okay
              then setup_device env v dev >> run_link env v dev terminal
              else emit (print "~rFATAL:~0 no suitable tunnel device\n"))
            s).1
  with_device v dev terminal true s c h =
      after (TakenDown v) (setup_device env v dev) (λ _. run_link env v dev terminal) s
        (λ _ t _ h. inl (dev, c, run_link-LinkEnded v dev terminal t h)) h
  with_device v dev terminal false s c h = inr (emit-last _ s)

  -- Where `WireguardUp` returns, the last two commands that it handed to `RunCommand` take a
  -- device down and delete it, which is the context's device where it names one; or the last
  -- thing it did is to say that the set-up failed or that there is no device.
  pub wireguard_up-TakenDown :
      (v : Vpn) (terminal : List Read) (s : State)
      → (wireguard_up env v terminal s).0 ≡ ret tt
      → TakenDown v (wireguard_up env v terminal s).1
  unfolding wireguard_up
  wireguard_up-TakenDown v terminal s h =
      after (TakenDown v) (emit _) _ s
        (λ _ t _ h.
          after (TakenDown v) (run_command env "modprobe wireguard" cmd_asroot) _ t
            (λ _ u _ h.
              after (TakenDown v) (device_of v) _ u
                (λ dev w found h.
                  after (TakenDown v) (emit _) _ w
                    (λ _ x _ h. with_device v dev terminal (valid dev) x (chosen v dev u found) h)
                    h)
                h)
            h)
        h
