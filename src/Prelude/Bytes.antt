-- ===== src/Prelude/Bytes.antt =====
-- Byte strings: the C strings and buffers of main.c and tinyjson.h as lists of byte values, and the
-- string functions of the C library that the program calls.
use Prim.Native.Char.{code}
use Prim.Native.String.{String}
use Prim.Native.Nat.{ℕ, ◌≤◌}
use mathlib.Core.Path.{◌≡◌, refl}
use mathlib.Core.Logic.{◌↔◌}
use mathlib.Core.Bool.{Bool, true, false, not, ◌&&◌}
use mathlib.Core.List.{List, [], ◌∷◌}
use native.Mathlib.Omega.{arith}
use sa.Prelude.Tests.{◌==◌, if◌then◌else◌}
use sa.Prelude.Lists.{length, every}

abbrev pub Bytes : Type 0
Bytes = List ℕ

-- The bytes of an ASCII literal.
abbrev pub codes : String → Bytes
codes String.[] = []
codes (String.◌∷◌ c s) = code c ∷ codes s

-- `strcmp(a, b) == 0`, `memcmp(a, b, n) == 0` at equal lengths.
unfoldable pub equal : Bytes → Bytes → Bool
equal [] [] = true
equal (x ∷ xs) (y ∷ ys) = x == y && equal xs ys
equal _ _ = false

pub equal_iff : (s t : Bytes) → (equal s t ≡ true) ↔ (s ≡ t)
unfolding equal
equal_iff [] [] = ground arith
equal_iff [] (d ∷ t) = ground arith
equal_iff (c ∷ s) [] = ground arith
equal_iff (c ∷ s) (d ∷ t) = ground (arith, equal_iff s t)

pub equal_refl : (a : Bytes) → equal a a ≡ true
equal_refl a = (equal_iff a a).1 refl

-- `strncmp(s, prefix, strlen(prefix)) == 0`.
unfoldable pub starts_with : Bytes → Bytes → Bool
starts_with [] s = true
starts_with (p ∷ ps) [] = false
starts_with (p ∷ ps) (c ∷ s) = p == c && starts_with ps s

-- What `strlen` and the other string functions see of a buffer: the bytes before the first NUL.
unfoldable pub c_string : Bytes → Bytes
c_string [] = []
c_string (c ∷ s) = if c == 0 then [] else c ∷ c_string s

-- No NUL inside.
abbrev pub is_text : Bytes → Bool
is_text = every (λ c. not (c == 0))

pub c_string-is_text : (s : Bytes) → is_text s ≡ true → c_string s ≡ s
unfolding c_string
c_string-is_text [] h = refl
c_string-is_text (c ∷ s) h = ground (arith, c_string-is_text s)

pub is_text-c_string : (s : Bytes) → is_text (c_string s) ≡ true
unfolding c_string
is_text-c_string [] = refl
is_text-c_string (c ∷ s) = ground (arith, is_text-c_string s)

pub length-c_string : (s : Bytes) → length (c_string s) ≤ length s
unfolding c_string
length-c_string [] = omega arith
length-c_string (c ∷ s) = ground (arith, length-c_string s)
