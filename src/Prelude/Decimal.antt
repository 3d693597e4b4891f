-- ===== src/Prelude/Decimal.antt =====
-- Decimal text: what `printf` writes for `%d`, `%ld`, `%lld` and `%zu`, and its value when read back.
use native.Mathlib.Nat.{pow-suc}
use sa.Prelude.Tests.{ltb, leb, Bool-cases, lt→ltb}
use sa.Prelude.Lists.{length, length-append, every, every-append}
use sa.Prelude.Int.{ℤ, pos, negsuc}
use sa.Prelude.Bytes.{Bytes}
use Prim.Native.Nat.{ℕ, zero, suc, ◌+◌, ◌-◌, ◌*◌, ◌/◌, ◌%◌, ◌^◌, ◌≤◌, ◌<◌}
use mathlib.Core.Path.{◌≡◌, refl}
use mathlib.Core.Logic.{inl, inr}
use mathlib.Core.Bool.{Bool, true, false, ◌&&◌}
use mathlib.Core.List.{[], ◌∷◌, ◌++◌}
use native.Mathlib.Omega.{arith}

unfoldable pub decimal_on : ℕ → ℕ → Bytes
decimal_on zero n = []
decimal_on (suc fuel) n = elim (ltb n 10) [
  | true ↦ (n + b'0') ∷ []
  | false ↦ decimal_on fuel (n / 10) ++ (n % 10 + b'0') ∷ []
]

unfoldable pub decimal : ℕ → Bytes
unfolding decimal_on
decimal n = decimal_on (suc n) n

unfoldable pub decimal_ℤ : ℤ → Bytes
decimal_ℤ (pos n) = decimal n
decimal_ℤ (negsuc n) = b'-' ∷ decimal (suc n)

-- `isdigit` in the C locale.
abbrev pub is_digit : ℕ → Bool
is_digit c = leb b'0' c && leb c b'9'

-- The number that a run of digits stands for, after the digits of `n`.
unfoldable pub read_decimal : ℕ → Bytes → ℕ
read_decimal n [] = n
read_decimal n (c ∷ s) = read_decimal (10 * n + (c - b'0')) s

pub read_decimal-append :
    (n : ℕ) (s t : Bytes) → read_decimal n (s ++ t) ≡ read_decimal (read_decimal n s) t
unfolding read_decimal
read_decimal-append n [] t = refl
read_decimal-append n (c ∷ s) t = read_decimal-append (10 * n + (c - b'0')) s t

-- One round of the loop, in its two cases.
decimal_on-small : (fuel n : ℕ) → ltb n 10 ≡ true → decimal_on (suc fuel) n ≡ (n + b'0') ∷ []
unfolding decimal_on
decimal_on-small fuel n h = ground arith

decimal_on-big :
    (fuel n : ℕ)
    → ltb n 10 ≡ false
    → decimal_on (suc fuel) n ≡ decimal_on fuel (n / 10) ++ (n % 10 + b'0') ∷ []
unfolding decimal_on
decimal_on-big fuel n h = ground arith

read_decimal-decimal_on : (fuel n : ℕ) → n < fuel → read_decimal 0 (decimal_on fuel n) ≡ n
read_decimal-decimal_on zero n h = absurd (omega arith)
read_decimal-decimal_on (suc fuel) n h = elim (Bool-cases (ltb n 10)) [
  | inl small ↦ rw (decimal_on-small fuel n small) (unfold read_decimal in omega arith)
  | inr big ↦
      let big' : 10 ≤ n = ground arith in
      rw
        (
          decimal_on-big fuel n big,
          read_decimal-append,
          read_decimal-decimal_on fuel (n / 10) (omega arith),
        )
        (unfold read_decimal in omega arith)
]

pub read_decimal-decimal : (n : ℕ) → read_decimal 0 (decimal n) ≡ n
unfolding decimal
read_decimal-decimal n = read_decimal-decimal_on (suc n) n (omega arith)

every-decimal_on : (fuel n : ℕ) → every is_digit (decimal_on fuel n) ≡ true
every-decimal_on zero n = unfold decimal_on in refl
every-decimal_on (suc fuel) n = elim (Bool-cases (ltb n 10)) [
  | inl small ↦ rw (decimal_on-small fuel n small) (ground arith)
  | inr big ↦
      rw (decimal_on-big fuel n big, every-append, every-decimal_on fuel (n / 10)) (ground arith)
]

pub every-decimal : (n : ℕ) → every is_digit (decimal n) ≡ true
unfolding decimal
every-decimal n = every-decimal_on (suc n) n

length-decimal_on_pos : (fuel n : ℕ) → 0 < length (decimal_on (suc fuel) n)
length-decimal_on_pos fuel n = elim (Bool-cases (ltb n 10)) [
  | inl small ↦ rw (decimal_on-small fuel n small) (omega arith)
  | inr big ↦ rw (decimal_on-big fuel n big, length-append) (omega arith)
]

pub length-decimal_pos : (n : ℕ) → 0 < length (decimal n)
unfolding decimal
length-decimal_pos n = length-decimal_on_pos n n

length-decimal_on : (fuel n k : ℕ) → n < 10 ^ suc k → length (decimal_on fuel n) ≤ suc k
length-decimal_on zero n k h = unfold decimal_on in omega arith
length-decimal_on (suc fuel) n zero h =
    let small : n < 10 = omega arith in
    rw (decimal_on-small fuel n (lt→ltb n 10 small)) (omega arith)
length-decimal_on (suc fuel) n (suc k) h = elim (Bool-cases (ltb n 10)) [
  | inl small ↦ rw (decimal_on-small fuel n small) (omega arith)
  | inr big ↦
      let next = length-decimal_on fuel (n / 10) k (omega (arith, pow-suc 10 (suc k))) in
      rw (decimal_on-big fuel n big, length-append) (omega arith)
]

-- A number below a power of ten has at most so many digits.
pub length-decimal : (n k : ℕ) → n < 10 ^ suc k → length (decimal n) ≤ suc k
unfolding decimal
length-decimal n k h = length-decimal_on (suc n) n k h
