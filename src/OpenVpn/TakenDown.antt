-- ===== src/OpenVpn/TakenDown.antt =====
-- How a run of openvpn ends (openvpn.c).
use mathlib.Core.Path.{subst}
use vpn_mgr.Base.{String, ◌≡◌, ◌∙◌, sym, ap, some}
use vpn_mgr.Common.{read_file_text}
use vpn_mgr.OpenVpn.{vpn_file, open_vpn_process, open_vpn_shut_down, run_client}
use vpn_mgr.Process.Bind.{>>=-eq-ret}
use vpn_mgr.Process.{Env, Stream, State, Res, ret}
use vpn_mgr.TunTap.{tun_shutdown}
use vpn_mgr.TunTap.Gone.{after, DeviceGone, tun_shutdown-DeviceGone}
use vpn_mgr.Vpn.{Vpn}

module _ (env : Env) where
  open_vpn_shut_down-DeviceGone :
      (v : Vpn) (dev : String) (s : State)
      → (open_vpn_shut_down env v dev s).0 ≡ ret tt
      → DeviceGone dev (open_vpn_shut_down env v dev s).1
  unfolding open_vpn_shut_down
  open_vpn_shut_down-DeviceGone v dev s h =
      after (DeviceGone dev) (read_file_text env (vpn_file env v ".pid")) _ s
        (λ _ t _ h.
          after (DeviceGone dev) _ (λ _. tun_shutdown env dev) t
            (λ _ u _ h. tun_shutdown-DeviceGone env dev u h) h)
        h

  -- Where `OpenVpnUp` has started openvpn and what it does from then on returns, the last two
  -- commands that it handed to `RunCommand` take the device down and delete it that
  -- `OpenVpnProcess` gave.
  pub run_client-DeviceGone :
      (v : Vpn) (client : Stream) (s : State)
      → (run_client env v (some client) s).0 ≡ ret tt
      → (dev : String) × ((open_vpn_process env v client s).0 ≡ ret dev)
        × DeviceGone dev (run_client env v (some client) s).1
  unfolding run_client
  run_client-DeviceGone v client s h =
      let (dev, found, eq) = >>=-eq-ret (open_vpn_process env v client) _ s tt h in
      let t = (open_vpn_process env v client s).1 in
      (
        dev,
        found,
        subst (λ (r : Res (Unit {0}) × State). DeviceGone dev r.1) (sym eq)
            (after (DeviceGone dev) _ (λ _. open_vpn_shut_down env v dev) t
              (λ _ u _ h. open_vpn_shut_down-DeviceGone v dev u h)
              (ap (λ (r : Res (Unit {0}) × State). r.0) (sym eq) ∙ h)),
      )
