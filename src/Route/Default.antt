-- ===== src/Route/Default.antt =====
-- Which route of /proc/net/route is taken for the default one (route.c).
use vpn_mgr.Base.{String, ◌≡◌, refl, true, false, List, [], ◌∷◌, ◌++◌, ◌==◌}
use vpn_mgr.Process.{Read, Env}
use vpn_mgr.Route.Hex.{parse_hex_address}
use vpn_mgr.Route.{default_gateway, default_dev}

module _ (env : Env) where
  -- The items of a line.
  abbrev pub device_of : Read → String
  device_of r = (env.get_token r.line "\\S").0

  abbrev behind_device : Read → String
  behind_device r = (env.get_token r.line "\\S").1

  abbrev pub destination_of : Read → String
  destination_of r = (env.get_token (behind_device r) "\\S").0

  abbrev pub gateway_of : Read → String
  gateway_of r = (env.get_token (env.get_token (behind_device r) "\\S").1 "\\S").0

  -- Lines of routes to other places than everywhere.
  abbrev pub NoGateway : List Read → Type 0
  NoGateway [] = Unit
  NoGateway (r ∷ reads) =
      ((parse_hex_address (destination_of r) == "0.0.0.0") ≡ false) × NoGateway reads

  abbrev pub NoDevice : List Read → Type 0
  NoDevice [] = Unit
  NoDevice (r ∷ reads) = ((destination_of r == "00000000") ≡ false) × NoDevice reads

  default_gateway-none :
      (reads : List Read) (so_far : String)
      → NoGateway reads
      → default_gateway env reads so_far ≡ so_far
  unfolding default_gateway
  default_gateway-none [] so_far h = refl
  default_gateway-none (r ∷ reads) so_far (h, more) = rw h (default_gateway-none reads so_far more)

  default_dev-none :
      (reads : List Read) (so_far : String) → NoDevice reads → default_dev env reads so_far ≡ so_far
  unfolding default_dev
  default_dev-none [] so_far h = refl
  default_dev-none (r ∷ reads) so_far (h, more) = rw h (default_dev-none reads so_far more)

  default_gateway-last :
      (before : List Read) (r : Read) (behind : List Read) (so_far : String)
      → (parse_hex_address (destination_of r) == "0.0.0.0") ≡ true
      → NoGateway behind
      → default_gateway env (before ++ r ∷ behind) so_far ≡ parse_hex_address (gateway_of r)
  unfolding default_gateway
  default_gateway-last [] r behind so_far h n =
      rw (h, default_gateway) (default_gateway-none behind _ n)
  default_gateway-last (x ∷ before) r behind so_far h n = default_gateway-last before r behind _ h n

  default_dev-last :
      (before : List Read) (r : Read) (behind : List Read) (so_far : String)
      → (destination_of r == "00000000") ≡ true
      → NoDevice behind
      → default_dev env (before ++ r ∷ behind) so_far ≡ device_of r
  unfolding default_dev
  default_dev-last [] r behind so_far h n = rw (h, default_dev) (default_dev-none behind _ n)
  default_dev-last (x ∷ before) r behind so_far h n = default_dev-last before r behind _ h n

  -- Where /proc/net/route has a route to everywhere and behind it no other, `RouteGetDefault`
  -- takes the gateway of that route and `RouteGetDefaultDev` its device, whatever routes stand
  -- before it.
  pub default_route_last :
      (before : List Read) (r : Read) (behind : List Read)
      → (parse_hex_address (destination_of r) == "0.0.0.0") ≡ true
      → NoGateway behind
      → (destination_of r == "00000000") ≡ true
      → NoDevice behind
      → (default_gateway env (before ++ r ∷ behind) "" ≡ parse_hex_address (gateway_of r))
        × (default_dev env (before ++ r ∷ behind) "" ≡ device_of r)
  default_route_last before r behind h n k m =
      (default_gateway-last before r behind "" h n, default_dev-last before r behind "" k m)
