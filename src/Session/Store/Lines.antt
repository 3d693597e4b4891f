-- ===== src/Session/Store/Lines.antt =====
-- main.c: the lines that the `getline` of `session_load` gives.
use sa.Prelude.{
  ℕ, ◌<◌, ◌≡◌, refl, ap, Bool, true, false, List, [], ◌∷◌, ◌++◌, arith, leb, ◌==◌, if◌then◌else◌,
  &&-true, if-split, length,
}
use sa.Prelude.Bytes.{Bytes}
use sa.Json.Printer.Lines.{is_plain}
use sa.Session.Store.{onto_first, getlines, without_newline}

pub getlines-plain :
    (l rest : Bytes)
    → is_plain l ≡ true
    → getlines (l ++ b'\n' ∷ rest) ≡ (l ++ b'\n' ∷ []) ∷ getlines rest
unfolding getlines
getlines-plain [] rest h = refl
getlines-plain (c ∷ l) rest h =
    let whole = &&-true (leb 0x20 c) (is_plain l) h in
    let other : (c == b'\n') ≡ false = ground arith in rw (getlines-plain l rest whole.1, other)

pub without_newline-line : (l : Bytes) → without_newline (l ++ b'\n' ∷ []) ≡ l
unfolding without_newline
without_newline-line [] = refl
without_newline-line (c ∷ []) = refl
without_newline-line (c ∷ e ∷ l) = ap (◌∷◌ c) (without_newline-line (e ∷ l))

-- Whether the file ends with a whole line.
abbrev pub ends_line : Bytes → Bool
ends_line [] = true
ends_line (c ∷ []) = c == b'\n'
ends_line (c ∷ e ∷ s) = ends_line (e ∷ s)

pub ends_line-append : (s l : Bytes) → ends_line (s ++ (l ++ b'\n' ∷ [])) ≡ true
ends_line-append [] [] = refl
ends_line-append [] (c ∷ []) = refl
ends_line-append [] (c ∷ e ∷ l) = ends_line-append [] (e ∷ l)
ends_line-append (c ∷ []) [] = refl
ends_line-append (c ∷ []) (e ∷ l) = ends_line-append [] (e ∷ l)
ends_line-append (c ∷ e ∷ s) l = ends_line-append (e ∷ s) l

onto_first-append :
    (c : ℕ) (ls ms : List Bytes) → 0 < length ls → onto_first c (ls ++ ms) ≡ onto_first c ls ++ ms
onto_first-append c [] ms h = absurd (omega arith)
onto_first-append c (l ∷ ls) ms h = refl

length-onto_first : (c : ℕ) (ls : List Bytes) → 0 < length (onto_first c ls)
length-onto_first c [] = omega arith
length-onto_first c (l ∷ ls) = omega arith

some_line : (c : ℕ) (s : Bytes) → 0 < length (getlines (c ∷ s))
unfolding getlines
some_line c s =
    if-split (λ ls. 0 < length ls) (c == b'\n') {x = (b'\n' ∷ []) ∷ getlines s}
      (λ newline. omega arith) (λ other. length-onto_first c (getlines s))

step_append :
    (b : Bool) (c : ℕ) (ls ms : List Bytes)
    → 0 < length ls
    → (if b then (b'\n' ∷ []) ∷ (ls ++ ms) else onto_first c (ls ++ ms))
      ≡ (if b then (b'\n' ∷ []) ∷ ls else onto_first c ls) ++ ms
step_append true c ls ms h = refl
step_append false c ls ms h = onto_first-append c ls ms h

getlines_lem :
    (c : ℕ) (s : Bytes)
    → getlines (c ∷ s)
      ≡ (if c == b'\n' then (b'\n' ∷ []) ∷ getlines s else onto_first c (getlines s))
unfolding getlines
getlines_lem c s = refl

pub getlines-nil : getlines [] ≡ []
unfolding getlines
getlines-nil = refl

pub getlines-append :
    (s t : Bytes) → ends_line s ≡ true → getlines (s ++ t) ≡ getlines s ++ getlines t
getlines-append [] t h = rw getlines-nil
getlines-append (c ∷ []) t h = rw (getlines_lem c t, getlines_lem c [], getlines-nil, h)
getlines-append (c ∷ e ∷ s) t h =
    rw (getlines_lem c (e ∷ s ++ t), getlines_lem c (e ∷ s), getlines-append (e ∷ s) t h)
      (step_append (c == b'\n') c (getlines (e ∷ s)) (getlines t) (some_line e s))
