-- ===== src/Decimal.antt =====
-- What the sources use of the standard library for decimal numbers: `ostream << unsigned`,
-- `std::to_string`, `std::stoi` and `atoi`.
pub mod Roundtrip
use sweetcomb.Prelude.{
  ℕ, zero, suc, ◌+◌, ◌-◌, ◌*◌, ◌/◌, ◌%◌, ◌^◌, Bool, true, false, ◌&&◌, ◌||◌, [], ◌∷◌, ◌++◌, Text,
  ltb, leb, ◌==◌, if◌then◌else◌,
}
use sweetcomb.Prelude.Int.{ℤ, pos, neg, to_unsigned, to_int32}
use sweetcomb.Prelude.Outcome.{Outcome, value, throws, invalid_argument, out_of_range}

abbrev is_digit : ℕ → Bool
is_digit c = leb b'0' c && leb c b'9'

-- `isspace` in the C locale.
abbrev is_space : ℕ → Bool
is_space c = c == b' ' || (leb 9 c && leb c 13)

-- The digits of a number, at most as many as the fuel.
show_fuel : ℕ → ℕ → Text
show_fuel zero n = []
show_fuel (suc f) n =
    let rest = show_fuel f (n / 10) in
    if ltb n 10 then (b'0' + n) ∷ [] else rest ++ (b'0' + n % 10) ∷ []

-- `n` is always fuel enough.
unfoldable pub show : ℕ → Text
unfolding show_fuel
show n = show_fuel (suc n) n

-- Reads digits up to the first character that is none.
read : ℕ → Text → ℕ
read acc [] = acc
read acc (c ∷ s) = if is_digit c then read (acc * 10 + (c - b'0')) s else acc

skip_spaces : Text → Text
skip_spaces [] = []
skip_spaces (c ∷ s) = if is_space c then skip_spaces s else c ∷ s

in_range : Bool → ℕ → Outcome ℤ
in_range true n = if leb n (2 ^ 31) then value (neg n) else throws out_of_range
in_range false n = if ltb n (2 ^ 31) then value (pos n) else throws out_of_range

magnitude : Bool → Text → Outcome ℤ
magnitude minus [] = throws invalid_argument
magnitude minus (c ∷ s) =
    if is_digit c then in_range minus (read 0 (c ∷ s)) else throws invalid_argument

after_spaces : Text → Outcome ℤ
after_spaces [] = throws invalid_argument
after_spaces (c ∷ s) =
    if c == b'-'
    then magnitude true s
    else if c == b'+'
    then magnitude false s
    else magnitude false (c ∷ s)

unfoldable pub stoi : Text → Outcome ℤ
unfolding read skip_spaces in_range magnitude after_spaces
stoi s = after_spaces (skip_spaces s)

-- A number in the range of a 64-bit `long`; beyond it, the end of the range.
clamp : Bool → ℕ → ℤ
clamp true n = if leb n (2 ^ 63) then neg n else neg (2 ^ 63)
clamp false n = if ltb n (2 ^ 63) then pos n else pos (2 ^ 63 - 1)

after_sign : Text → ℤ
unfolding clamp read
after_sign [] = pos 0
after_sign (c ∷ s) =
    if c == b'-'
    then clamp true (read 0 s)
    else if c == b'+'
    then clamp false (read 0 s)
    else clamp false (read 0 (c ∷ s))

-- `atoi` is `strtol` to the base 10, where a text without digits gives 0, converted to `int`.
unfoldable pub atoi : Text → ℤ
unfolding after_sign skip_spaces
atoi s = to_int32 (to_unsigned 32 (after_sign (skip_spaces s)))
