-- ===== src/Common/Frame.antt =====
-- What a signal changes (common.c).
use vpn_mgr.Base.{refl, arith}
use vpn_mgr.Common.{deliver, signal_handler, ssh_vpn_terminate, set_exit}
use vpn_mgr.Process.{Read, Signal, sigkill, sigterm, sigint, other_signal, ◌>>=◌}
use vpn_mgr.Process.Keeps.{Keeps, keeps}
use vpn_mgr.Process.Respects.{Respects, respects_rules}

set_exit-Keeps : Respects Keeps set_exit
unfolding set_exit ◌>>=◌
set_exit-Keeps = record {
  at = λ s. record {
    ran = refl;
    found = refl;
    nodns = refl;
    exit = λ h. refl;
    su = refl;
    sudo = λ h. h;
  };
}

ssh_vpn_terminate-Keeps : Respects Keeps ssh_vpn_terminate
unfolding ssh_vpn_terminate ◌>>=◌
ssh_vpn_terminate-Keeps = record {
  at = λ s. record {
    ran = ground arith;
    found = ground arith;
    nodns = ground arith;
    exit = λ h. ground arith;
    su = ground arith;
    sudo = λ h. ground arith;
  };
}

signal_handler-Keeps : (g : Signal) → Respects Keeps (signal_handler g)
unfolding signal_handler
signal_handler-Keeps sigkill =
    search (respects_rules, keeps, set_exit-Keeps, ssh_vpn_terminate-Keeps)
signal_handler-Keeps sigterm =
    search (respects_rules, keeps, set_exit-Keeps, ssh_vpn_terminate-Keeps)
signal_handler-Keeps sigint =
    search (respects_rules, keeps, set_exit-Keeps, ssh_vpn_terminate-Keeps)
signal_handler-Keeps other_signal = search (respects_rules, keeps)

pub deliver-Keeps : (r : Read) → Respects Keeps (deliver r)
unfolding deliver
deliver-Keeps r = search (respects_rules, keeps, signal_handler-Keeps)
