-- ===== src/Net/Names.antt =====
-- The name of a new network device (net.c).
use vpn_mgr.Base.{
  ℕ, zero, suc, ◌+◌, String, ◌<>◌, ◌≡◌, refl, ap, inl, inr, Bool, true, Bool-cases, List, [], ◌∷◌,
  some, any, if◌then◌else◌, arith,
}
use vpn_mgr.Base.Chars.{show}
use vpn_mgr.Net.Devices.{Device}
use vpn_mgr.Net.First.{FirstOrNone, first-none, first-here, first-later}
use vpn_mgr.Net.{
  load_lines, load_stream, net_load_devices, net_dev_exists, find_next, net_dev_find_next,
}
use vpn_mgr.Process.{Env, Event, Read, State, Stream, ret, ◌>>=◌, interface_ip, open_stream}

-- The name with a number.
abbrev pub numbered : String → ℕ → String
numbered prefix n = prefix <> show n

module _ (env : Env) where
  -- The name of a line of /proc/net/dev, and whether a line has a name.
  abbrev dev_name : Read → String
  dev_name r = (env.get_token (env.trim_right (env.trim_left r.line)) ":").0

  abbrev pub is_listed : List Read → String → Bool
  is_listed reads name = any (λ (r : Read). env.tag_matches (dev_name r) name) reads

  load_lines-listed :
      (name : String) (reads : List Read) (s : State)
      → (devices : List Device) × ((load_lines env reads s).0 ≡ ret devices)
        × (any (λ (d : Device). env.tag_matches d.tag name) devices ≡ is_listed reads name)
  unfolding load_lines ◌>>=◌
  load_lines-listed name [] s = ([], refl, refl)
  load_lines-listed name (r ∷ reads) s =
      let t = record s { trace = interface_ip (dev_name r) ∷ s.trace } in
      let (more, returns, listed) = load_lines-listed name reads t in
      (
        record { tag = dev_name r; item = env.text t.trace } ∷ more,
        rw returns refl,
        ap (λ b. if env.tag_matches (dev_name r) name then true else b) listed,
      )

  module _ (file : Stream)
      (same : (t : List Event) → env.stream (open_stream "/proc/net/dev" "r" ∷ t) ≡ some file) where
    net_dev_exists-listed :
        (name : String) (s : State)
        → (net_dev_exists env name s).0 ≡ ret (is_listed file.reads name)
    unfolding net_dev_exists net_load_devices load_stream ◌>>=◌
    net_dev_exists-listed name s =
        let t = record s { trace = open_stream "/proc/net/dev" "r" ∷ s.trace } in
        let (devices, returns, listed) = load_lines-listed name file.reads t in
        rw (same s.trace, load_stream) (rw returns (ap (λ (b : Bool). ret b) listed))

    find_next-first :
        (prefix : String) (rounds count high : ℕ) (s : State)
        → high ≡ count + rounds
        → (name : String) × ((find_next env rounds count prefix s).0 ≡ ret name)
          × FirstOrNone (numbered prefix) (is_listed file.reads) count high name
    unfolding find_next ◌>>=◌
    find_next-first prefix zero count high s e =
        let here : high ≡ count = omega arith in ("", refl, rw here (first-none _ _ count))
    find_next-first prefix (suc rounds) count high s e =
        let t = (net_dev_exists env (numbered prefix count) s).1 in
        let known = net_dev_exists-listed (numbered prefix count) s in
        elim (Bool-cases (is_listed file.reads (numbered prefix count))) [
          | inl taken ↦
              let (name, returns, first) =
                find_next-first prefix rounds (count + 1) high t (omega arith) in
              (name, rw known (rw taken returns), first-later _ _ count high name taken first)
          | inr free ↦ (
            numbered prefix count,
            rw known (rw free refl),
            first-here _ _ count high free (omega arith),
          )
        ]

    -- If /proc/net/dev always reads the same, `NetDevFindNext` returns the prefix with the least
    -- number from 0 to 998 with which it is not the name of a device there, or the empty text where
    -- every one of them is.
    pub net_dev_find_next_lem :
        (prefix : String) (s : State)
        → (name : String) × ((net_dev_find_next env prefix s).0 ≡ ret name)
          × FirstOrNone (numbered prefix) (is_listed file.reads) 0 999 name
    unfolding net_dev_find_next
    net_dev_find_next_lem prefix s = find_next-first prefix 999 0 999 s refl
