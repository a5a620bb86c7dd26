-- ===== src/Console/Text.antt =====
-- The texts of product_console.c: tokens of a line, numbers in a token, and printed numbers.
use mqtt_field_bridge_app.Base.{
  ℕ, zero, suc, ◌+◌, ◌-◌, ◌*◌, ◌/◌, ◌%◌, ◌^◌, Bool, ◌&&◌, ◌||◌, Option, none, some, [], ◌∷◌, ◌++◌,
  Bytes, ℤ, pos, negsuc, ltb, leb, ◌==◌, if◌then◌else◌,
}

-- " \t\r\n"
unfoldable pub is_delim : ℕ → Bool
is_delim c = c == b' ' || c == b'\t' || c == b'\r' || c == b'\n'

unfoldable pub skip_delims : Bytes → Bytes
skip_delims [] = []
skip_delims (c ∷ s) = let rest = skip_delims s in if is_delim c then rest else c ∷ s

-- A token, and what stands behind the delimiter that ends it.
unfoldable pub split_token : Bytes → Bytes × Bytes
split_token [] = ([], [])
split_token (c ∷ s) =
    let (token, rest) = split_token s in if is_delim c then ([], s) else (c ∷ token, rest)

unfoldable pub first_token : Bytes → Option Bytes × Bytes
first_token [] = (none, [])
first_token (c ∷ s) = let (token, rest) = split_token (c ∷ s) in (some token, rest)

-- strtok_r over the line, and next_token over what is left of it: the token, if there is one, and
-- the new position.
unfoldable pub next_token : Bytes → Option Bytes × Bytes
next_token save = first_token (skip_delims save)

abbrev pub is_digit : ℕ → Bool
is_digit c = leb b'0' c && leb c b'9'

-- The loop of numeric_menu_command. A signed overflow is undefined in C; here it wraps, as the
-- machine's addition does, and a value from 2^31 on stands for a negative one.
unfoldable pub menu_number : ℕ → Bytes → ℕ
menu_number value [] = value
menu_number value (c ∷ s) =
    let rest = menu_number ((value * 10 + (c - b'0')) % 2 ^ 32) s in if is_digit c then rest else 0

unfoldable pub numeric_menu_command : Bytes → ℕ
numeric_menu_command cmd = menu_number 0 cmd

-- isspace
unfoldable pub is_space : ℕ → Bool
is_space c = c == b' ' || leb 9 c && leb c 13

unfoldable pub skip_spaces : Bytes → Bytes
skip_spaces [] = []
skip_spaces (c ∷ s) = let rest = skip_spaces s in if is_space c then rest else c ∷ s

-- The value of the digits that a text starts with.
unfoldable pub digits_value : ℕ → Bytes → ℕ
digits_value value [] = value
digits_value value (c ∷ s) =
    let rest = digits_value (value * 10 + (c - b'0')) s in if is_digit c then rest else value

unfoldable pub negated : ℕ → ℤ
negated zero = pos 0
negated (suc n) = negsuc n

unfoldable pub signed_value : Bytes → ℤ
signed_value [] = pos 0
signed_value (c ∷ s) =
    if c == b'-'
    then negated (digits_value 0 s)
    else if c == b'+'
    then pos (digits_value 0 s)
    else pos (digits_value 0 (c ∷ s))

abbrev pub int_max : ℕ
int_max = 2 ^ 31 - 1

-- The greatest or the least value for a number that lies outside.
unfoldable pub clamped : ℤ → ℤ
clamped (pos n) = pos (if ltb int_max n then int_max else n)
clamped (negsuc n) = negsuc (if ltb int_max n then int_max else n)

-- strtol to base 10 with a `long` of 32 bits, and atoi, which C leaves open outside of `int`, as this
-- strtol.
unfoldable pub atoi : Bytes → ℤ
atoi s = clamped (signed_value (skip_spaces s))

-- (uint16_t)i and (uint8_t)i
unfoldable pub u16_of : ℤ → ℕ
u16_of (pos n) = n % 2 ^ 16
u16_of (negsuc n) = 2 ^ 16 - 1 - n % 2 ^ 16

unfoldable pub u8_of : ℤ → ℕ
u8_of (pos n) = n % 2 ^ 8
u8_of (negsuc n) = 2 ^ 8 - 1 - n % 2 ^ 8

-- The decimal digits of n, with fuel above n.
unfoldable pub decimal_from : ℕ → ℕ → Bytes
decimal_from zero n = []
decimal_from (suc fuel) n =
    let front = decimal_from fuel (n / 10) in
    if ltb n 10 then (b'0' + n) ∷ [] else front ++ (b'0' + n % 10) ∷ []

-- What "%u" prints.
unfoldable pub decimal : ℕ → Bytes
decimal n = decimal_from (suc n) n

-- What "%d" prints.
unfoldable pub signed_decimal : ℤ → Bytes
signed_decimal (pos n) = decimal n
signed_decimal (negsuc n) = b'-' ∷ decimal (suc n)
