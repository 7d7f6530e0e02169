-- ===== src/Route/Laws.antt =====
-- Which commands set up routes (route.c).
use mathlib.Core.List.{reverse_aux}
use vpn_mgr.Base.{String, ◌<>◌, ◌≡◌, refl, ◌∙◌, sym, ap, List, [], ◌∷◌, map}
use vpn_mgr.Process.Bind.{>>=-eq-ret}
use vpn_mgr.Process.{Env, Event, State, Res, ret, ◌>>=◌, emit, print}
use vpn_mgr.Route.{route_command, route_setup_all, route_setup}
use vpn_mgr.RunCommand.Format.{cmd_asroot}
use vpn_mgr.RunCommand.Launch.Frame.{ran-run_command}
use vpn_mgr.RunCommand.Launch.{run_command}

module _ (env : Env) (dev : String) where
  abbrev pub command_for : String → String
  command_for item = route_command dev (env.trim_right (env.trim_left item))

  announce : String → Event
  announce item =
      print
        ("~mROUTE:~0 Add route for [" <> env.trim_right (env.trim_left item) <> "] via the VPN\n")

  ran-route_setup_all :
      (items : List String) (s : State)
      → (route_setup_all env dev items s).0 ≡ ret tt
      → (route_setup_all env dev items s).1.ran ≡ reverse_aux (map command_for items) s.ran
  unfolding route_setup_all announce ◌>>=◌
  ran-route_setup_all [] s h = refl
  ran-route_setup_all (item ∷ items) s h =
      let run = run_command env (command_for item) cmd_asroot in
      let s' = (emit (announce item) s).1 in
      let (r, ran, eq) = >>=-eq-ret run (λ _. route_setup_all env dev items) s' tt h in
      ap (λ (p : Res (Unit {0}) × State). p.1.ran) eq
      ∙ ran-route_setup_all items (run s').1 (ap (λ (p : Res (Unit {0}) × State). p.0) (sym eq) ∙ h)
      ∙ ap (reverse_aux (map command_for items))
          (ran-run_command env (command_for item) cmd_asroot s')

  -- If `RouteSetup` returns, it has run one command for each address of its list and no other,
  -- in the order of the list: the default route for `default` or `all`, a network for an
  -- address with a `/`, and a host for any other.
  ran-route_setup :
      (addresses : String) (s : State)
      → (route_setup env addresses dev s).0 ≡ ret tt
      → (route_setup env addresses dev s).1.ran
        ≡ reverse_aux (map command_for (env.tokens addresses ",")) s.ran
  unfolding route_setup
  ran-route_setup addresses s = ran-route_setup_all (env.tokens addresses ",") s
