-- ===== src/Route.antt =====
-- Routes (route.c).
pub mod Hex
pub mod Laws
pub mod Default
use vpn_mgr.Base.{
  ℕ, String, ◌<>◌, Bool, true, false, not, ◌||◌, Option, none, some, List, [], ◌∷◌, ◌==◌,
  if◌then◌else◌,
}
use vpn_mgr.Base.Chars.{has_char}
use vpn_mgr.Common.{read_file_text}
use vpn_mgr.Process.{
  Read, Stream, Env, M, ◌>>=◌, ◌>>◌, pure, emit, ask_stream, open_stream, close, print,
}
use vpn_mgr.Route.Hex.{parse_hex_address}
use vpn_mgr.RunCommand.Format.{cmd_asroot}
use vpn_mgr.RunCommand.Launch.{run_command}

-- The first line is a header.
abbrev pub without_header : List Read → List Read
without_header [] = []
without_header (r ∷ reads) = reads

module _ (env : Env) where
  -- The loop of `RouteGetDefault`: the gateway of the last route to 0.0.0.0.
  unfoldable pub default_gateway : List Read → String → String
  default_gateway [] so_far = so_far
  default_gateway (r ∷ reads) so_far =
      let (dev, after_dev) = env.get_token r.line "\\S" in
      let (destination, after_destination) = env.get_token after_dev "\\S" in
      default_gateway reads (
        if parse_hex_address destination == "0.0.0.0"
        then parse_hex_address (env.get_token after_destination "\\S").0
        else so_far)

  -- The loop of `RouteGetDefaultDev`: the device of the last route to 00000000.
  unfoldable pub default_dev : List Read → String → String
  default_dev [] so_far = so_far
  default_dev (r ∷ reads) so_far =
      let (dev, after_dev) = env.get_token r.line "\\S" in
      default_dev reads (if (env.get_token after_dev "\\S").0 == "00000000" then dev else so_far)

  unfoldable pub read_routes : (List Read → String) → Option Stream → M String
  read_routes f none = pure ""
  read_routes f (some s) = emit (close s.id) >> pure (f (without_header s.reads))

  unfoldable pub route_get_default : M String
  unfolding read_routes
  route_get_default = do
    s ← ask_stream env (open_stream "/proc/net/route" "r")
    read_routes (λ reads. default_gateway reads "") s

  unfoldable pub route_get_default_dev : M String
  unfolding read_routes
  route_get_default_dev = do
    s ← ask_stream env (open_stream "/proc/net/route" "r")
    read_routes (λ reads. default_dev reads "") s

  unfoldable pub route_setup_vpn_server : String → M (Unit {0})
  route_setup_vpn_server destination = do
    router ← route_get_default
    emit (
        print (
          "~mROUTE:~0 Add route for vpn server [" <> destination <> "] via gateway [" <> router
          <> "]\n"))
    run_command env ("route add -host " <> destination <> " gw " <> router) cmd_asroot
    pure tt

-- The command for one address of the list.
unfoldable pub route_command : String → String → String
route_command dev address =
    if address == "default" || address == "all"
    then "route add default " <> dev
    else if has_char b'/' address
    then "route add -net " <> address <> " " <> dev
    else "route add -host " <> address <> " " <> dev

module _ (env : Env) where
  unfoldable pub route_setup_all : String → List String → M (Unit {0})
  route_setup_all dev [] = pure tt
  route_setup_all dev (item ∷ items) = do
    let address = env.trim_right (env.trim_left item)
    emit (print ("~mROUTE:~0 Add route for [" <> address <> "] via the VPN\n"))
    run_command env (route_command dev address) cmd_asroot
    route_setup_all dev items

  unfoldable pub route_setup : String → String → M (Unit {0})
  route_setup addresses dev = route_setup_all dev (env.tokens addresses ",")

  unfoldable pub default_dev_get_mtu : M String
  default_dev_get_mtu = do
    dev ← route_get_default_dev env
    read_file_text env ("/sys/class/net/" <> dev <> "/mtu")
