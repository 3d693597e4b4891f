-- ===== src/Prelude/Scan.antt =====
-- The functions of the C library that read numbers: `strtol`, and `%d` of `sscanf`; and the comparison
-- without case, `strncasecmp`. All in the C locale.
use sa.Prelude.Tests.{ltb, leb, ◌==◌, if◌then◌else◌}
use sa.Prelude.Int.{ℤ, pos, negsuc}
use sa.Prelude.Bytes.{Bytes, starts_with}
use Prim.Native.Nat.{ℕ, zero, suc, ◌+◌, ◌-◌, ◌*◌, ◌^◌, min}
use mathlib.Core.Bool.{Bool, true, false, ◌&&◌, ◌||◌}
use mathlib.Core.Option.{Option, none, some}
use mathlib.Core.List.{[], ◌∷◌}

-- `isspace`.
abbrev pub is_space : ℕ → Bool
is_space c = c == b' ' || (leb 9 c && leb c 13)

unfoldable pub skip_spaces : Bytes → Bytes
skip_spaces [] = []
skip_spaces (c ∷ s) = let rest = skip_spaces s in if is_space c then rest else c ∷ s

-- The value of a digit or letter, and a number beyond every base for another byte.
unfoldable pub digit_value : ℕ → ℕ
digit_value c =
    if leb b'0' c && leb c b'9'
    then c - b'0'
    else if leb b'a' c && leb c b'z'
    then c - b'a' + 10
    else if leb b'A' c && leb c b'Z'
    then c - b'A' + 10
    else 99

-- The digits at the front after the digits of `n`, and the rest.
unfoldable pub read_digits : (base n : ℕ) → Bytes → ℕ × Bytes
read_digits base n [] = (n, [])
read_digits base n (c ∷ s) =
    let rest = read_digits base (base * n + digit_value c) s in
    if ltb (digit_value c) base then rest else (n, c ∷ s)

abbrev signed : Bool → ℕ → ℤ
signed false n = pos n
signed true zero = pos 0
signed true (suc n) = negsuc n

-- Whether the text begins with a digit.
abbrev pub begins_digit : ℕ → Bytes → Bool
begins_digit base [] = false
begins_digit base (c ∷ s) = ltb (digit_value c) base

abbrev read_sign : Bytes → Bool × Bytes
read_sign [] = (false, [])
read_sign (c ∷ s) =
    if c == b'-' then (true, s) else if c == b'+' then (false, s) else (false, c ∷ s)

-- The prefix that base 16 allows, where a digit follows it.
abbrev skip_prefix : (base : ℕ) → Bytes → Bytes
skip_prefix base (c ∷ x ∷ s) =
    if base == 16 && c == b'0' && (x == b'x' || x == b'X') && begins_digit 16 s
    then s
    else c ∷ x ∷ s
skip_prefix base s = s

-- White space, a sign and digits: the number and the rest.
unfoldable pub read_number : (base : ℕ) → Bytes → Option (ℤ × Bytes)
read_number base s =
    let after_sign = read_sign (skip_spaces s) in
    let text = skip_prefix base after_sign.1 in
    let digits = read_digits base 0 text in
    if begins_digit base text then some (signed after_sign.0 digits.0, digits.1) else none

abbrev pub long_max : ℕ
long_max = 2 ^ 63 - 1

-- Out of range it is the nearest `long`.
abbrev pub clamp : ℤ → ℤ
clamp (pos n) = pos (min n long_max)
clamp (negsuc n) = negsuc (min n long_max)

abbrev value_or_zero : Option (ℤ × Bytes) → ℤ
value_or_zero none = pos 0
value_or_zero (some r) = clamp r.0

-- `strtol(s, NULL, base)`.
unfoldable pub strtol : (base : ℕ) → Bytes → ℤ
strtol base s = value_or_zero (read_number base s)

abbrev pub lower_byte : ℕ → ℕ
lower_byte c = if leb b'A' c && leb c b'Z' then c + 32 else c

unfoldable pub lower : Bytes → Bytes
lower [] = []
lower (c ∷ s) = lower_byte c ∷ lower s

-- `strncasecmp(s, prefix, strlen(prefix)) == 0`, for a prefix in lower case.
unfoldable pub starts_with_nocase : Bytes → Bytes → Bool
starts_with_nocase prefix s = starts_with prefix (lower s)
