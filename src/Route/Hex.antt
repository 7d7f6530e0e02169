-- ===== src/Route/Hex.antt =====
-- `RouteParseHexAddress` (route.c).
pub mod Laws
use Prim.Native.Char.{code}
use vpn_mgr.Base.{
  ℕ, ◌+◌, ◌-◌, ◌*◌, String, ◌<>◌, Bool, ◌&&◌, ◌||◌, List, [], ◌∷◌, leb, eqb, if◌then◌else◌,
}
use vpn_mgr.Base.Chars.{show, is_space}
use vpn_mgr.Base.Text.{valid}

-- The codes of a text, the last character first.
unfoldable pub codes_back : List ℕ → String → List ℕ
codes_back acc String.[] = acc
codes_back acc (String.◌∷◌ c s) = codes_back (code c ∷ acc) s

abbrev pub is_hex : ℕ → Bool
is_hex c = (leb 48 c && leb c 57) || ((leb 65 c && leb c 70) || (leb 97 c && leb c 102))

abbrev pub hex_value : ℕ → ℕ
hex_value c = if leb c 57 then c - 48 else if leb c 70 then c - 55 else c - 87

-- A minus sign and a digit, as `%d` prints the number.
abbrev negative : ℕ → String
negative n = if eqb n 0 then "0" else "-" <> show n

-- `%d` of what `strtol` makes of two characters in base 16.
unfoldable pub octet : ℕ → ℕ → String
octet c d =
    if is_hex c
    then show (if is_hex d then hex_value c * 16 + hex_value d else hex_value c)
    else if eqb c b'-'
    then negative (if is_hex d then hex_value d else 0)
    else if eqb c b'+' || is_space c
    then show (if is_hex d then hex_value d else 0)
    else "0"

-- The loop over the pairs, from the end of the text. A first character without a partner is
-- left out.
unfoldable pub join_octets : List ℕ → String → String
join_octets [] so_far = so_far
join_octets (d ∷ []) so_far = so_far
join_octets (d ∷ c ∷ rest) so_far =
    join_octets rest ((if valid so_far then so_far <> "." else so_far) <> octet c d)

unfoldable pub parse_hex_address : String → String
unfolding octet join_octets codes_back
parse_hex_address address = join_octets (codes_back [] address) ""
