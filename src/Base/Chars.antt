-- ===== src/Base/Chars.antt =====
-- C's character tests and comparisons (`strcasecmp`, `strncasecmp`, `isspace`, `strtol`, `%d`).
use Prim.Native.Nat.{ℕ, zero, suc, ◌+◌, ◌-◌, ◌*◌, ◌/◌, ◌%◌, ◌^◌}
use Prim.Native.Char.{code}
use Prim.Native.String.{String, ◌++◌}
use mathlib.Core.Bool.{Bool, true, false, ◌&&◌, ◌||◌}
use vpn_mgr.Base.Tests.{ltb, leb, eqb, if◌then◌else◌}

-- `tolower` of the C locale
unfoldable pub to_lower : ℕ → ℕ
to_lower c = if leb 65 c && leb c 90 then c + 32 else c

-- `strcasecmp(a, b)==0`
unfoldable pub case_eq : String → String → Bool
unfolding to_lower
case_eq String.[] String.[] = true
case_eq String.[] (String.◌∷◌ d t) = false
case_eq (String.◌∷◌ c s) String.[] = false
case_eq (String.◌∷◌ c s) (String.◌∷◌ d t) =
    eqb (to_lower (code c)) (to_lower (code d)) && case_eq s t

-- `strncasecmp(s, p, strlen(p))==0`
unfoldable pub case_prefix : String → String → Bool
unfolding to_lower
case_prefix s String.[] = true
case_prefix String.[] (String.◌∷◌ d p) = false
case_prefix (String.◌∷◌ c s) (String.◌∷◌ d p) =
    eqb (to_lower (code c)) (to_lower (code d)) && case_prefix s p

-- `isspace` of the C locale
unfoldable pub is_space : ℕ → Bool
is_space c = eqb c 32 || (leb 9 c && leb c 13)

-- `while (isspace(*ptr)) ptr++;`
unfoldable pub skip_space : String → String
unfolding is_space
skip_space String.[] = String.[]
skip_space (String.◌∷◌ c s) =
    let rest = skip_space s in if is_space (code c) then rest else (String.◌∷◌ c s)

-- `strchr(s, c)` finds the character
unfoldable pub has_char : ℕ → String → Bool
has_char n String.[] = false
has_char n (String.◌∷◌ c s) = eqb (code c) n || has_char n s

is_digit : ℕ → Bool
is_digit c = leb 48 c && leb c 57

unfoldable pub digits_value : ℕ → String → ℕ
unfolding is_digit
digits_value acc String.[] = acc
digits_value acc (String.◌∷◌ c s) =
    let more = digits_value (acc * 10 + (code c - 48)) s in if is_digit (code c) then more else acc

-- a `-` makes the number negative, which is 2^32 minus it in an `unsigned int`
signed_value : String → ℕ
signed_value String.[] = 0
signed_value (String.◌∷◌ c s) =
    if eqb (code c) b'-'
    then (2 ^ 32 - digits_value 0 s % 2 ^ 32) % 2 ^ 32
    else if eqb (code c) b'+'
    then digits_value 0 s % 2 ^ 32
    else digits_value 0 (String.◌∷◌ c s) % 2 ^ 32

-- `atoi(s)`, as it is stored in an `unsigned int`
unfoldable pub atoi : String → ℕ
unfolding signed_value skip_space digits_value
atoi s = signed_value (skip_space s)

digit : ℕ → String
digit zero = "0"
digit (suc zero) = "1"
digit (suc (suc zero)) = "2"
digit (suc (suc (suc zero))) = "3"
digit (suc (suc (suc (suc zero)))) = "4"
digit (suc (suc (suc (suc (suc zero))))) = "5"
digit (suc (suc (suc (suc (suc (suc zero)))))) = "6"
digit (suc (suc (suc (suc (suc (suc (suc zero))))))) = "7"
digit (suc (suc (suc (suc (suc (suc (suc (suc zero)))))))) = "8"
digit _ = "9"

show_fuel : ℕ → ℕ → String
show_fuel zero n = ""
show_fuel (suc f) n =
    let front = show_fuel f (n / 10) in if ltb n 10 then digit n else front ++ digit (n % 10)

-- `%d` of a number below 2^31. A 32-bit number has at most ten digits.
unfoldable pub show : ℕ → String
unfolding show_fuel digit
show n = show_fuel 10 n

-- `%d` of an `unsigned int`: from 2^31 on it prints a negative number
unfoldable pub show_int : ℕ → String
unfolding show
show_int n = if ltb n (2 ^ 31) then show n else "-" ++ show (2 ^ 32 - n)

-- `s + n`; a text that has less than n characters gives the empty text, where the program would read
-- beyond its end.
unfoldable pub drop : ℕ → String → String
drop n String.[] = String.[]
drop zero (String.◌∷◌ c s) = String.◌∷◌ c s
drop (suc n) (String.◌∷◌ c s) = drop n s

-- `StrLen(s)`: a character of the model is one byte
unfoldable pub str_len : String → ℕ
str_len String.[] = 0
str_len (String.◌∷◌ c s) = suc (str_len s)
