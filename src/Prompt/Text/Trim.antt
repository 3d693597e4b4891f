-- ===== src/Prompt/Text/Trim.antt =====
-- main.c: `trim` on a line, and on a value that is written as it is.
use sa.Prelude.{
  ℕ, ◌≡◌, refl, sym, ap, ◌∙◌, Bool, true, false, not, ◌||◌, [], ◌∷◌, ◌++◌, append_assoc, arith,
  ◌==◌, every,
}
use sa.Prelude.Bytes.{Bytes, is_text}
use sa.Prompt.Text.{is_blank, is_trailing, skip_while, strip_while, unquote, trim}

abbrev pub ends_well : Bytes → Bool
ends_well [] = false
ends_well (c ∷ []) = not (is_trailing c)
ends_well (c ∷ e ∷ s) = ends_well (e ∷ s)

-- Not a blank, a quote, or the start of a block.
abbrev begins_well : Bytes → Bool
begins_well [] = false
begins_well (c ∷ s) = not (is_blank c || c == b'"' || c == 39 || c == b'>' || c == b'|')

abbrev pub on_a_line : Bytes → Bool
on_a_line = every (λ c. not (c == b'\n'))

-- A value that is written as it is.
pub record IsPlain (v : Bytes) : Type 0 where
  pub begins : begins_well v ≡ true
  pub ends : ends_well v ≡ true
  pub one_line : on_a_line v ≡ true
  pub text : is_text v ≡ true

ends_well-append : (u v : Bytes) → ends_well v ≡ true → ends_well (u ++ v) ≡ true
ends_well-append [] v h = h
ends_well-append (c ∷ []) [] h = absurd (ground arith)
ends_well-append (c ∷ []) (e ∷ v) h = h
ends_well-append (c ∷ d ∷ u) v h = ends_well-append (d ∷ u) v h

strip_while-newline :
    (v : Bytes) → ends_well v ≡ true → strip_while is_trailing (v ++ b'\n' ∷ []) ≡ v
unfolding strip_while
strip_while-newline [] h = absurd (ground arith)
strip_while-newline (c ∷ []) h = ground arith
strip_while-newline (c ∷ e ∷ s) h = rw (strip_while-newline (e ∷ s) h) refl

strip_while-none : (v : Bytes) → ends_well v ≡ true → strip_while is_trailing v ≡ v
unfolding strip_while
strip_while-none [] h = absurd (ground arith)
strip_while-none (c ∷ []) h = ground arith
strip_while-none (c ∷ e ∷ s) h = rw (strip_while-none (e ∷ s) h) refl

abbrev is_quote : ℕ → Bool
is_quote c = c == b'"' || c == 39

skip_none : (c : ℕ) (s : Bytes) → is_blank c ≡ false → skip_while is_blank (c ∷ s) ≡ c ∷ s
unfolding skip_while
skip_none c s h = rw h refl

unquote_none : (c : ℕ) (s : Bytes) → is_quote c ≡ false → unquote (c ∷ s) ≡ c ∷ s
unfolding unquote
unquote_none c s h = rw h refl

trim_stripped :
    (c : ℕ) (s t : Bytes)
    → is_blank c ≡ false
    → is_quote c ≡ false
    → strip_while is_trailing (c ∷ s) ≡ c ∷ t
    → trim (c ∷ s) ≡ c ∷ t
unfolding trim
trim_stripped c s t h k e =
    ap (λ u. unquote (strip_while is_trailing u)) (skip_none c s h)
    ∙ (ap unquote e ∙ unquote_none c t k)

-- A line of a key: its first byte is neither blank nor a quote.
pub trim_line :
    (c : ℕ) (s v : Bytes)
    → is_blank c ≡ false
    → is_quote c ≡ false
    → ends_well v ≡ true
    → trim (c ∷ s ++ (v ++ b'\n' ∷ [])) ≡ c ∷ s ++ v
trim_line c s v h k e = trim_stripped c (s ++ (v ++ b'\n' ∷ [])) (s ++ v) h k (
    ap (strip_while is_trailing) (sym (append_assoc (c ∷ s) v (b'\n' ∷ [])))
    ∙ strip_while-newline (c ∷ s ++ v) (ends_well-append (c ∷ s) v e))

-- What a first byte that begins well is not.
pub first_is_plain :
    (c : ℕ) (s : Bytes)
    → begins_well (c ∷ s) ≡ true
    → (is_blank c ≡ false) × (is_quote c ≡ false) × ((c == b'>') ≡ false) × ((c == b'|') ≡ false)
first_is_plain c s h = (ground arith, ground arith, ground arith, ground arith)

trim_skips : (u : Bytes) → trim (b' ' ∷ u) ≡ trim u
unfolding trim skip_while
trim_skips u = refl

pub trim_value : (v : Bytes) → IsPlain v → trim (b' ' ∷ v) ≡ v
trim_value [] h = absurd (no_bytes h.begins)
  where
    no_bytes : false ≡ true → ⊥
    no_bytes e = ground arith
trim_value (c ∷ s) h =
    let first = first_is_plain c s h.begins in
    trim_skips (c ∷ s) ∙ trim_stripped c s s first.0 first.1 (strip_while-none (c ∷ s) h.ends)
