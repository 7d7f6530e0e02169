-- ===== src/Net/Laws.antt =====
-- Which address the search for a free one gives (net.c).
use vpn_mgr.Base.{
  ℕ, zero, suc, ◌+◌, String, ◌≡◌, refl, ◌∙◌, ap, sym, inl, inr, Bool, true, false, ◌&&◌, List, [],
  ◌∷◌, ◌==◌, any, arith, eq_refl, Bool-cases,
}
use vpn_mgr.Net.First.{FirstOrNone, first-none, first-here, first-later}
use vpn_mgr.Base.Text.{valid, begins}
use vpn_mgr.Net.Devices.{find_for_ip, Device, devs_ip_exists, nth_ip, next_ip_from, next_ip}

module _ (prefix : String) (devices : List Device) where
  next_ip_from_lem :
      (rounds count high : ℕ)
      → high ≡ count + rounds
      → FirstOrNone
          (nth_ip prefix)
          (devs_ip_exists devices)
          count
          high
          (next_ip_from rounds count prefix devices)
  unfolding next_ip_from
  next_ip_from_lem zero count high e =
      let same : high ≡ count = omega arith in rw same (first-none _ _ count)
  next_ip_from_lem (suc rounds) count high e =
      elim (Bool-cases (devs_ip_exists devices (nth_ip prefix count))) [
        | inl taken ↦ rw taken (
            first-later _ _ count high _ taken
              (next_ip_from_lem rounds (count + 1) high (omega arith)))
        | inr free ↦ rw free (first-here _ _ count high free (omega arith))
      ]

  -- The address that `NetDevFindNextIP` chooses has the least number from 2 to 254 that no
  -- device has behind the prefix; it is empty only if every one of them is taken.
  pub next_ip_lem :
      FirstOrNone (nth_ip prefix) (devs_ip_exists devices) 2 255 (next_ip prefix devices)
  unfolding next_ip
  next_ip_lem = next_ip_from_lem 253 2 255 refl

-- A device of the list has the name, the prefix and the address.
abbrev pub has_device : String → String → String → List Device → Bool
has_device prefix ip name devices =
    any (λ d. d.tag == name && (begins d.tag prefix && d.item == ip)) devices

has_device-head :
    (prefix ip : String) (d : Device) (devices : List Device)
    → (begins d.tag prefix && d.item == ip) ≡ true
    → has_device prefix ip d.tag (d ∷ devices) ≡ true
has_device-head prefix ip d devices h = rw (eq_refl d.tag) (rw h refl)

has_device-tail :
    (prefix ip name : String) (d : Device) (devices : List Device)
    → has_device prefix ip name devices ≡ true
    → has_device prefix ip name (d ∷ devices) ≡ true
has_device-tail prefix ip name d devices h = ground arith

find_for_ip-tail :
    (prefix ip : String) (d : Device) (devices : List Device)
    → (begins d.tag prefix && d.item == ip) ≡ false
    → find_for_ip prefix ip (d ∷ devices) ≡ find_for_ip prefix ip devices
unfolding find_for_ip
find_for_ip-tail prefix ip d devices h = rw h refl

find_for_ip-head :
    (prefix ip : String) (d : Device) (devices : List Device)
    → (begins d.tag prefix && d.item == ip) ≡ true
    → find_for_ip prefix ip (d ∷ devices) ≡ d.tag
unfolding find_for_ip
find_for_ip-head prefix ip d devices h = rw h refl

-- A name that `NetDevFindForIP` gives, where it is not empty, is that of a device of the list
-- with the prefix and the address that were asked for.
find_for_ip_lem :
    (prefix ip : String) (devices : List Device)
    → valid (find_for_ip prefix ip devices) ≡ true
    → has_device prefix ip (find_for_ip prefix ip devices) devices ≡ true
unfolding find_for_ip
find_for_ip_lem prefix ip [] h = absurd cc
find_for_ip_lem prefix ip (d ∷ devices) h =
    elim (Bool-cases (begins d.tag prefix && d.item == ip)) [
      | inl hit ↦
          ap (λ n. has_device prefix ip n (d ∷ devices)) (find_for_ip-head prefix ip d devices hit)
          ∙ has_device-head prefix ip d devices hit
      | inr miss ↦
          let e = find_for_ip-tail prefix ip d devices miss in
          ap (λ n. has_device prefix ip n (d ∷ devices)) e
          ∙ has_device-tail prefix ip (find_for_ip prefix ip devices) d devices
              (find_for_ip_lem prefix ip devices (sym (ap valid e) ∙ h))
    ]
