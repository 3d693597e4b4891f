-- ===== src/Json/Number.antt =====
-- The doubles that `valuedouble` holds, as the C library and the compiler provide them: the program
-- reads one with `strtod`, casts it to `int` and `long long`, compares two, and prints one with `%g`.
-- They are a parameter. The laws say that an integer of at most 53 bits is held exactly.
use sa.Prelude.{◌+◌, ◌^◌, ◌≤◌, ◌<◌, ◌≡◌, Bool, true}
use sa.Prelude.Int.{ℤ, pos_part, neg_part}
use sa.Prelude.Bytes.{Bytes}
use sa.Prelude.Decimal.{decimal_ℤ}

-- The integers that a double holds exactly.
abbrev pub IsExact : ℤ → Type 0
IsExact z = pos_part z + neg_part z ≤ 2 ^ 53

pub record Doubles : Type 1 where
  pub Double : Type 0
  pub strtod : Bytes → Double
  -- The conversions `(double)n`, `(int)d` and `(long long)d`.
  pub of_int : ℤ → Double
  pub to_int : Double → ℤ
  pub to_long : Double → ℤ
  -- `==` on doubles, and the text of `%g`.
  pub eq : Double → Double → Bool
  pub format_g : Double → Bytes
  pub to_int-of_int : (z : ℤ) → IsExact z → pos_part z + neg_part z < 2 ^ 31 → to_int (of_int z) ≡ z
  pub to_long-of_int : (z : ℤ) → IsExact z → to_long (of_int z) ≡ z
  pub eq-of_int : (z : ℤ) → IsExact z → eq (of_int z) (of_int z) ≡ true
  pub strtod-decimal : (z : ℤ) → IsExact z → strtod (decimal_ℤ z) ≡ of_int z
