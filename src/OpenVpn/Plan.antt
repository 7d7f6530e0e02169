-- ===== src/OpenVpn/Plan.antt =====
-- What a run of openvpn leads to, notice by notice (openvpn.c, updown.c).
use mathlib.Core.Path.{subst}
use mathlib.Core.List.{append-nil}
use vpn_mgr.Base.{String, ◌≡◌, refl, List, [], ◌∷◌, ◌++◌, Bool}
use vpn_mgr.Common.Frame.{deliver-Keeps}
use vpn_mgr.Common.{deliver}
use vpn_mgr.OpenVpn.Followed.{Followed, Follows, here, unless_exit, then-Follows, >>=-Follows}
use vpn_mgr.OpenVpn.{
  Notice, iface_up, device, completed, other, problem, warning, exiting, notice_of, act_on,
  show_line, open_vpn_loop, open_vpn_process,
}
use vpn_mgr.Process.Keeps.{Keeps, keeps}
use vpn_mgr.Process.Respects.{Respects, pure-Respects, respects_rules}
use vpn_mgr.Process.{Env, Read, State, Stream, Res, ret, stop, fault, continue, ◌>>=◌, ◌>>◌, pure}
use vpn_mgr.RunCommand.Runs.{Runs, quiet-Runs, >>=-Runs}
use vpn_mgr.UpDown.Commands.{Steady, up_commands}
use vpn_mgr.UpDown.Plan.{vpn_up-Runs}
use vpn_mgr.UpDown.{vpn_up}
use vpn_mgr.Vpn.{Vpn}

-- The device that is known once a notice was read.
abbrev pub next_device : Notice → String → String
next_device (iface_up name) dev = name
next_device (device name) dev = name
next_device completed dev = dev
next_device other dev = dev
next_device (problem text) dev = dev
next_device (warning text) dev = dev
next_device exiting dev = dev

-- The device after all lines of the output.
abbrev pub last_device : Env → List Read → String → String
last_device env [] dev = dev
last_device env (r ∷ reads) dev =
    last_device env reads (next_device (notice_of env (env.trim_right r.line)) dev)

then-value :
    (r : Res (Unit {0})) (t : State) (a d : String) → (continue r (λ _. pure a) t).0 ≡ ret d → d ≡ a
unfolding pure
then-value (ret u) t a d e = cc
then-value (stop c) t a d e = cc
then-value fault t a d e = cc

module _ (env : Env) (steady : Steady env) (nodns : Bool) (v : Vpn) where
  -- The link comes up on the device of an interface that openvpn names, and once more where openvpn
  -- says that it has completed its start, on the device that is known then.
  abbrev pub notice_commands : Notice → String → List String
  notice_commands (iface_up name) dev = up_commands env steady nodns v name
  notice_commands (device name) dev = []
  notice_commands completed dev = up_commands env steady nodns v dev
  notice_commands other dev = []
  notice_commands (problem text) dev = []
  notice_commands (warning text) dev = []
  notice_commands exiting dev = []

  abbrev pub output_commands : List Read → String → List String
  output_commands [] dev = []
  output_commands (r ∷ reads) dev =
      let notice = notice_of env (env.trim_right r.line) in
      notice_commands notice dev ++ output_commands reads (next_device notice dev)

  up_then :
      (dev : String)
      → Runs nodns (vpn_up env v dev >> pure dev) (up_commands env steady nodns v dev)
  up_then dev =
      subst (Runs nodns (vpn_up env v dev >> pure dev))
        (append-nil (up_commands env steady nodns v dev))
        (>>=-Runs nodns (vpn_up env v dev) _ (up_commands env steady nodns v dev) []
          (vpn_up-Runs env nodns steady v dev)
          (λ _. quiet-Runs nodns (pure dev) (pure-Respects keeps dev)))

  act_on-Runs :
      (n : Notice) (dev : String) → Runs nodns (act_on env n v dev) (notice_commands n dev)
  unfolding act_on
  act_on-Runs (iface_up name) dev = up_then name
  act_on-Runs (device name) dev = quiet-Runs nodns _ (pure-Respects keeps name)
  act_on-Runs completed dev = up_then dev
  act_on-Runs other dev = quiet-Runs nodns _ (pure-Respects keeps dev)
  act_on-Runs (problem text) dev = quiet-Runs nodns _ (search (respects_rules, keeps))
  act_on-Runs (warning text) dev = quiet-Runs nodns _ (search (respects_rules, keeps))
  act_on-Runs exiting dev = quiet-Runs nodns _ (search (respects_rules, keeps))

  act_on-value :
      (n : Notice) (dev : String) (s : State) (d : String)
      → (act_on env n v dev s).0 ≡ ret d
      → d ≡ next_device n dev
  unfolding act_on ◌>>=◌
  act_on-value (iface_up name) dev s d e = then-value (vpn_up env v name s).0 _ name d e
  act_on-value (device name) dev s d e = cc
  act_on-value completed dev s d e = then-value (vpn_up env v dev s).0 _ dev d e
  act_on-value other dev s d e = cc
  act_on-value (problem text) dev s d e = cc
  act_on-value (warning text) dev s d e = cc
  act_on-value exiting dev s d e = cc

  show_line-Keeps : (line : String) → Respects Keeps (show_line env line)
  unfolding show_line
  show_line-Keeps line = search (respects_rules, keeps) depth 12

  loop-Follows :
      (reads : List Read) (dev : String)
      → Follows nodns
          (output_commands reads dev)
          (last_device env reads dev)
          (open_vpn_loop env v reads dev)
  unfolding open_vpn_loop pure
  loop-Follows [] dev = record { at = λ s n. here dev s s.flags.exit }
  loop-Follows (r ∷ reads) dev =
      let n = notice_of env (env.trim_right r.line) in
      then-Follows nodns (deliver r) _ _ _ (deliver-Keeps r) (
        then-Follows nodns (show_line env r.line) _ _ _ (show_line-Keeps r.line) (
          unless_exit nodns _ _ _ dev (
            >>=-Follows nodns (act_on env n v dev) _ (next_device n dev) (notice_commands n dev) _ _
              (act_on-Runs n dev) (act_on-value n dev) (loop-Follows reads (next_device n dev)))))

module _ (env : Env) (steady : Steady env) (v : Vpn) (output : Stream) (s : State) where
  -- If the process id is always the same and so is the answer whether a script may be executed,
  -- `OpenVpnProcess` brings the link up for each line of openvpn's output that says so, in the order
  -- of the lines: on the device that a line with `net_iface_up:` names, and where a line says that
  -- the start is completed on the device that the last line before it with a device named. Where it
  -- returns with FLAG_EXIT clear it has called `RunCommand` for all of the commands of these plans
  -- of `VpnUp` and for no other, and gives the device that the last such line named; else it has
  -- called it for a beginning of them.
  pub open_vpn_process_refines :
      Followed
        (output_commands env steady s.flags.nodns v output.reads "????")
        (last_device env output.reads "????")
        s
        (open_vpn_process env v output s).0
        (open_vpn_process env v output s).1.flags.exit
        (open_vpn_process env v output s).1
  unfolding open_vpn_process
  open_vpn_process_refines = (loop-Follows env steady s.flags.nodns v output.reads "????").at s refl
