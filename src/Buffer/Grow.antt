-- ===== src/Buffer/Grow.antt =====
-- main.c: the doubling loop of `buf_reserve`.
use sa.Prelude.{
  ℕ, zero, suc, ◌*◌, ◌^◌, ◌≤◌, ◌<◌, ◌≡◌, refl, sym, subst, Option, some, arith, ltb, if-split,
}
use sa.Buffer.{size_t, grow}

doubled : ℕ → ℕ → ℕ
doubled zero c = c
doubled (suc f) c = doubled f (c * 2)

doubled_le : (f a b : ℕ) → a ≤ b → doubled f a ≤ doubled f b
unfolding doubled
doubled_le zero a b h = h
doubled_le (suc f) a b h = doubled_le f (a * 2) (b * 2) (omega arith)

pub size_t_small : (n : ℕ) → n < 2 ^ 64 → size_t n ≡ n
size_t_small n h = omega arith

-- The loop ends with room enough.
abbrev pub IsRoom : ℕ → Option ℕ → Type 0
IsRoom need o = (c : ℕ) × (o ≡ some c) × (need ≤ c)

grow-IsRoom :
    (f need c : ℕ) → need ≤ 2 ^ 63 → need ≤ doubled f c → IsRoom need (grow (suc f) need c)
unfolding grow doubled
grow-IsRoom zero need c h k =
    if-split (IsRoom need) (ltb c need) (λ less. absurd (ground arith)) (λ _. (c, refl, k))
grow-IsRoom (suc f) need c h k =
    if-split (IsRoom need) (ltb c need)
      (λ less.
        subst (λ e. IsRoom need (grow (suc f) need e))
          (sym (size_t_small (c * 2) (ground (arith, less, h)))) (grow-IsRoom f need (c * 2) h k))
      (λ enough. (c, refl, ground arith))

doubled_63 : doubled 63 1 ≡ 2 ^ 63
unfolding doubled
doubled_63 = refl

pub grow_enough : (need c : ℕ) → need ≤ 2 ^ 63 → 0 < c → IsRoom need (grow 64 need c)
grow_enough need c h k =
    grow-IsRoom 63 need c h (omega (arith, doubled_63, doubled_le 63 1 c (omega arith)))
