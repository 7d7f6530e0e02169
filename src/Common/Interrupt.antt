-- ===== src/Common/Interrupt.antt =====
-- What a signal does to the process, and to a loop that waits for input (common.c).
use vpn_mgr.Base.{◌≡◌, refl, true, arith}
use vpn_mgr.Common.{deliver, signal_handler, set_exit, ssh_vpn_terminate}
use vpn_mgr.Process.{Read, Signal, sigkill, sigterm, sigint, other_signal, State, ◌>>=◌, ◌>>◌}

-- To handle the same signal twice has the effect of handling it once.
signal_handler-signal_handler :
    (g : Signal) (s : State) → (signal_handler g >> signal_handler g) s ≡ signal_handler g s
unfolding signal_handler set_exit ssh_vpn_terminate ◌>>=◌
signal_handler-signal_handler sigkill s = ground arith
signal_handler-signal_handler sigterm s = ground arith
signal_handler-signal_handler sigint s = ground arith
signal_handler-signal_handler other_signal s = refl

-- Once a read that comes with SIGINT is delivered, FLAG_EXIT is set.
pub deliver-exit : (r : Read) (s : State) → r.sigint ≡ true → (deliver r s).1.flags.exit ≡ true
unfolding deliver signal_handler set_exit ssh_vpn_terminate ◌>>=◌
deliver-exit r s h = ground arith
