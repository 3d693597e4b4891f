-- ===== src/Prompt/Text/Lines.antt =====
-- main.c: the lines of `fgets`.
use sa.Prelude.{
  ℕ, ◌-◌, ◌≤◌, ◌≡◌, refl, true, false, not, ◌||◌, [], ◌∷◌, ◌++◌, arith, ◌==◌, &&-true, length,
}
use sa.Prelude.Bytes.{Bytes}
use sa.Prompt.Text.{fgets_from, fgets_lines}
use sa.Prompt.Text.Trim.{on_a_line}

fgets_from-line :
    (room left : ℕ) (l s : Bytes)
    → on_a_line l ≡ true
    → length l ≤ left
    → fgets_from room left (l ++ b'\n' ∷ s) ≡ (l ++ b'\n' ∷ []) ∷ fgets_from room (room - 1) s
unfolding fgets_from
fgets_from-line room left [] s h k = refl
fgets_from-line room left (c ∷ l) s h k =
    let both = &&-true (not (c == b'\n')) (on_a_line l) h in
    let goes_on : (c == b'\n' || left == 0) ≡ false = ground (arith, both.0, k) in
    rw (goes_on, fgets_from-line room (left - 1) l s both.1 (omega (arith, k))) refl

pub fgets_lines-line :
    (l s : Bytes)
    → on_a_line l ≡ true
    → length l ≤ 2046
    → fgets_lines 2048 (l ++ b'\n' ∷ s) ≡ (l ++ b'\n' ∷ []) ∷ fgets_lines 2048 s
unfolding fgets_lines
fgets_lines-line l s h k = fgets_from-line 2047 2046 l s h k
