-- ===== src/Route/Hex/Laws.antt =====
-- What the addresses of /proc/net/route are read as (route.c).
use Prim.Native.Char.{code}
use Prim.Native.String.append
use vpn_mgr.Base.{
  ℕ, ◌+◌, ◌*◌, ◌/◌, ◌%◌, ◌<◌, String, ◌<>◌, ◌≡◌, refl, ◌∙◌, ap, ap₂, true, List, [], ◌∷◌, ◌++◌,
  arith, ltb, holds_from, holds_from_sound, if◌then◌else◌,
}
use vpn_mgr.Base.Chars.{show}
use vpn_mgr.Base.Text.{valid, valid-append}
use vpn_mgr.Route.Hex.{codes_back, octet, join_octets, parse_hex_address, is_hex, hex_value}

-- A hexadecimal digit, as the kernel prints it.
abbrev pub hex_digit : ℕ → ℕ
hex_digit n = if ltb n 10 then 48 + n else 55 + n

-- The codes of the two digits of a byte.
abbrev pub hex_byte : ℕ → List ℕ
hex_byte b = hex_digit (b / 16) ∷ hex_digit (b % 16) ∷ []

-- The codes of a text.
unfoldable pub codes : String → List ℕ
codes String.[] = []
codes (String.◌∷◌ c s) = code c ∷ codes s

is_hex-hex_digit : (n : ℕ) → n < 16 → is_hex (hex_digit n) ≡ true
is_hex-hex_digit n h = ground arith

hex_value-hex_digit : (n : ℕ) → n < 16 → hex_value (hex_digit n) ≡ n
hex_value-hex_digit n h = ground arith

octet-hex :
    (c d : ℕ)
    → is_hex c ≡ true
    → is_hex d ≡ true
    → octet c d ≡ show (hex_value c * 16 + hex_value d)
unfolding octet
octet-hex c d h k = rw h (rw k refl)

octet-hex_byte : (b : ℕ) → b < 256 → octet (hex_digit (b / 16)) (hex_digit (b % 16)) ≡ show b
octet-hex_byte b h =
    octet-hex (hex_digit (b / 16)) (hex_digit (b % 16)) (is_hex-hex_digit (b / 16) (omega arith))
      (is_hex-hex_digit (b % 16) (omega arith))
    ∙ ap show (
        ap₂ (λ x y. x * 16 + y) (hex_value-hex_digit (b / 16) (omega arith))
          (hex_value-hex_digit (b % 16) (omega arith))
        ∙ omega arith)

abbrev reversed : List ℕ → List ℕ → List ℕ
reversed acc [] = acc
reversed acc (c ∷ cs) = reversed (c ∷ acc) cs

codes_back-eq : (acc : List ℕ) (s : String) → codes_back acc s ≡ reversed acc (codes s)
unfolding codes_back codes
codes_back-eq acc String.[] = refl
codes_back-eq acc (String.◌∷◌ c s) = codes_back-eq (code c ∷ acc) s

valid-show_table : holds_from (λ n. valid (show n)) 256 0 ≡ true
unfolding holds_from show
valid-show_table = refl

valid-show : (b : ℕ) → b < 256 → valid (show b) ≡ true
valid-show b h =
    holds_from_sound (λ n. valid (show n)) 256 0 b valid-show_table (omega arith) (omega arith)

-- The digits of a byte as the loop meets them, the last one first.
abbrev back : ℕ → List ℕ → List ℕ
back b rest = hex_digit (b % 16) ∷ hex_digit (b / 16) ∷ rest

-- A number behind what was read so far.
abbrev pub dotted : String → ℕ → String
dotted so_far b = (so_far <> ".") <> show b

valid-dotted : (so_far : String) (b : ℕ) → valid so_far ≡ true → valid (dotted so_far b) ≡ true
valid-dotted so_far b v = valid-append (so_far <> ".") (show b) (valid-append so_far "." v)

join_octets-next :
    (b : ℕ) (rest : List ℕ) (so_far : String)
    → b < 256
    → valid so_far ≡ true
    → join_octets (back b rest) so_far ≡ join_octets rest (dotted so_far b)
unfolding join_octets
join_octets-next b rest so_far h v = rw v (rw (octet-hex_byte b h) refl)

join_octets-first :
    (b : ℕ) (rest : List ℕ) → b < 256 → join_octets (back b rest) "" ≡ join_octets rest (show b)
unfolding join_octets
join_octets-first b rest h = rw (octet-hex_byte b h) (rw append.nil refl)

join_octets-end : (so_far : String) → join_octets [] so_far ≡ so_far
unfolding join_octets
join_octets-end so_far = refl

-- The text that the kernel prints for an address, the two hexadecimal digits in capitals of each
-- of its four bytes with the last byte first, is read as the four bytes in decimal, first byte
-- first, with dots between them.
pub parse_hex_address_lem :
    (a b c d : ℕ) (address : String)
    → a < 256
    → b < 256
    → c < 256
    → d < 256
    → codes address ≡ hex_byte d ++ (hex_byte c ++ (hex_byte b ++ hex_byte a))
    → parse_hex_address address ≡ dotted (dotted (dotted (show a) b) c) d
unfolding parse_hex_address
parse_hex_address_lem a b c d address ha hb hc hd e =
    let ab = dotted (show a) b in
    let valid_ab = valid-dotted (show a) b (valid-show a ha) in
    ap (λ cs. join_octets cs "") (codes_back-eq [] address ∙ ap (reversed []) e)
    ∙ join_octets-first a (back b (back c (back d []))) ha
    ∙ join_octets-next b (back c (back d [])) (show a) hb (valid-show a ha)
    ∙ join_octets-next c (back d []) ab hc valid_ab
    ∙ join_octets-next d [] (dotted ab c) hd (valid-dotted ab c valid_ab)
    ∙ join_octets-end (dotted (dotted ab c) d)
