-- ===== src/Net/Devices.antt =====
-- The searches in the list of network devices (net.c).
use vpn_mgr.Base.{
  ℕ, zero, suc, ◌+◌, String, ◌<>◌, Bool, true, false, ◌&&◌, List, [], ◌∷◌, ◌==◌, if◌then◌else◌,
}
use vpn_mgr.Base.Chars.{show}
use vpn_mgr.Base.Text.{begins}

-- A node of the list: a device's name and its address.
pub record Device : Type 0 where
  pub tag : String
  pub item : String

-- The loop of `NetDevFindForIP`.
unfoldable pub find_for_ip : String → String → List Device → String
find_for_ip prefix ip [] = ""
find_for_ip prefix ip (d ∷ devices) =
    if begins d.tag prefix && d.item == ip then d.tag else find_for_ip prefix ip devices

-- `DevsIPExists`
unfoldable pub devs_ip_exists : List Device → String → Bool
devs_ip_exists [] ip = false
devs_ip_exists (d ∷ devices) ip = if d.item == ip then true else devs_ip_exists devices ip

abbrev pub nth_ip : String → ℕ → String
nth_ip prefix count = prefix <> "." <> show count

-- The loop of `NetDevFindNextIP`, with the rounds left and the number to try.
unfoldable pub next_ip_from : ℕ → ℕ → String → List Device → String
unfolding devs_ip_exists
next_ip_from zero count prefix devices = ""
next_ip_from (suc rounds) count prefix devices =
    let later = next_ip_from rounds (count + 1) prefix devices in
    if devs_ip_exists devices (nth_ip prefix count) then later else nth_ip prefix count

-- The numbers 2 to 254.
unfoldable pub next_ip : String → List Device → String
unfolding next_ip_from
next_ip prefix devices = next_ip_from 253 2 prefix devices
