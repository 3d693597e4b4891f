-- ===== src/Json/Total/Strings.antt =====
-- tinyjson.h: the loops of the parser's strings end, and what a call leaves is shorter.
use sa.Prelude.{
  ℕ, zero, suc, ◌≤◌, ◌<◌, ◌≡◌, refl, Bool, true, false, some, [], ◌∷◌, arith, ◌==◌, if◌then◌else◌,
  length, Option, none, ◌++◌,
}
use sa.Prelude.Bytes.{Bytes, starts_with, c_string}
use sa.Json.Parser.{
  ok, bind, map_value, skip_ws, unicode_escape, read_char, read_chars, parse_string_raw,
  expect_colon, Result, failed, out_of_fuel, next_chars,
}

-- The run kept within its fuel, and left fewer than `n` bytes if it read something.
abbrev pub Within {ℓ} : {A : Type ℓ} → ℕ → Result (A × Bytes) → Type 0
Within n (ok (a, rest)) = length rest < n
Within n failed = Unit
Within n out_of_fuel = ⊥

module _ {ℓ κ} {A : Type ℓ} {B : Type κ} where
  pub Within-map_value :
      (n : ℕ) (f : A → B) (r : Result (A × Bytes)) → Within n r → Within n (map_value f r)
  Within-map_value n f (ok (a, rest)) h = h
  Within-map_value n f failed h = h
  Within-map_value n f out_of_fuel h = h

  pub Within-bind :
      (n m : ℕ) (r : Result (A × Bytes)) (f : A × Bytes → Result (B × Bytes))
      → Within m r
      → ((a : A) (rest : Bytes) → length rest < m → Within n (f (a, rest)))
      → Within n (bind r f)
  Within-bind n m (ok (a, rest)) f h k = k a rest h
  Within-bind n m failed f h k = tt
  Within-bind n m out_of_fuel f h k = absurd h

pub Within-mono {ℓ} :
    {A : Type ℓ} (n m : ℕ) (r : Result (A × Bytes)) → n ≤ m → Within n r → Within m r
Within-mono n m (ok (a, rest)) h w = omega arith
Within-mono n m failed h w = tt
Within-mono n m out_of_fuel h w = w

pub Within-if {ℓ} :
    {A : Type ℓ} (n : ℕ) (b : Bool) (x y : Result (A × Bytes))
    → (b ≡ true → Within n x)
    → (b ≡ false → Within n y)
    → Within n (if b then x else y)
Within-if n true x y hx hy = hx refl
Within-if n false x y hx hy = hy refl

pub length-skip_ws : (s : Bytes) → length (skip_ws s) ≤ length s
unfolding skip_ws
length-skip_ws [] = omega arith
length-skip_ws (c ∷ s) = ground (arith, length-skip_ws s)

pub length-unicode_escape :
    (s : Bytes) {out rest : Bytes} → unicode_escape s ≡ some (out, rest) → length rest ≤ length s
unfolding unicode_escape
length-unicode_escape (a ∷ b ∷ c ∷ e ∷ s) h = ground arith
length-unicode_escape _ h = cc

pub length-read_char :
    (c : ℕ) (s : Bytes) {out rest : Bytes}
    → read_char c s ≡ some (out, rest)
    → length rest ≤ length s
unfolding read_char
length-read_char c [] h = ground arith
length-read_char c (e ∷ s) {out} {rest} h =
    ground (arith, length-unicode_escape s {out = out} {rest = rest})

pub next_chars-Within :
    (n : ℕ) (rounds : Bytes → Result (Bytes × Bytes)) (c : ℕ) (s : Bytes)
    → length s ≤ n
    → ((r : Bytes) → length r ≤ n → Within n (rounds r))
    → Within (suc n) (next_chars rounds (read_char c s))
next_chars-Within n rounds c s h k = go (read_char c s) refl
  where
    go : (o : Option (Bytes × Bytes)) → read_char c s ≡ o → Within (suc n) (next_chars rounds o)
    go none e = unfold next_chars in tt
    go (some (out, r)) e =
        let shorter : length r ≤ n = omega (arith, length-read_char c s e) in
        unfold next_chars in
        Within-map_value _ (◌++◌ out) _ (Within-mono n _ _ (omega arith) (k r shorter))

pub read_chars-Within :
    (fuel n : ℕ) (s : Bytes) → length s ≤ n → n < fuel → Within n (read_chars fuel s)
unfolding read_chars
read_chars-Within zero n s h enough = absurd (omega arith)
read_chars-Within (suc fuel) n [] h enough = tt
read_chars-Within (suc fuel) zero (c ∷ s) h enough = absurd (omega arith)
read_chars-Within (suc fuel) (suc n) (c ∷ s) h enough =
    Within-if _ (c == b'"') _ _ (λ _. omega arith)
      (λ _.
        next_chars-Within n (read_chars fuel) c s (omega arith)
          (λ r below. read_chars-Within fuel n r below (omega arith)))

pub parse_string_raw-Within : (s : Bytes) → Within (length s) (parse_string_raw s)
unfolding parse_string_raw
parse_string_raw-Within [] = tt
parse_string_raw-Within (c ∷ s) =
    Within-if _ (c == b'"') _ _
      (λ _. Within-map_value _ c_string _ (
        Within-mono (length s) _ _ (omega arith)
          (read_chars-Within (suc (length s)) (length s) s (omega arith) (omega arith))))
      (λ _. tt)

pub length-starts_with : (p s : Bytes) → starts_with p s ≡ true → length p ≤ length s
unfolding starts_with
length-starts_with [] s h = omega arith
length-starts_with (x ∷ p) [] h = cc
length-starts_with (x ∷ p) (c ∷ s) h = ground (arith, length-starts_with p s)

pub expect_colon-Within : (s : Bytes) → Within (length s) (expect_colon s)
unfolding expect_colon
expect_colon-Within [] = tt
expect_colon-Within (c ∷ s) = Within-if _ (c == b':') _ _ (λ _. omega arith) (λ _. tt)
