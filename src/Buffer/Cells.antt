-- ===== src/Buffer/Cells.antt =====
-- main.c: `memcpy` and `realloc` on memory cells.
use sa.Prelude.{
  ℕ, zero, suc, ◌+◌, ◌-◌, ◌≤◌, ◌≡◌, refl, ap, true, Option, none, some, List, [], ◌∷◌, ◌++◌,
  append_assoc, append-nil, arith, leb, length, get_elem?, take, drop, replicate, length-append,
  length-take, length-replicate, take_all, take-append,
}
use sa.Prelude.Bytes.{Bytes}
use sa.Buffer.{resize, written, store}

pub take_prefix : {A : Type 0} (n : ℕ) (xs ys : List A) → n ≡ length xs → take n (xs ++ ys) ≡ xs
take_prefix zero [] ys h = refl
take_prefix zero (x ∷ xs) ys h = absurd (omega arith)
take_prefix (suc n) [] ys h = absurd (omega arith)
take_prefix (suc n) (x ∷ xs) ys h = ap (◌∷◌ x) (take_prefix n xs ys (omega arith))

pub get_elem?-behind :
    {A : Type 0} (n : ℕ) (xs : List A) (y : A) (ys : List A)
    → n ≡ length xs
    → get_elem? (xs ++ y ∷ ys) n ≡ some y
get_elem?-behind zero [] y ys h = refl
get_elem?-behind zero (x ∷ xs) y ys h = absurd (omega arith)
get_elem?-behind (suc n) [] y ys h = absurd (omega arith)
get_elem?-behind (suc n) (x ∷ xs) y ys h = get_elem?-behind n xs y ys (omega arith)

pub length-written : (s : Bytes) → length (written s) ≡ length s
unfolding written
length-written [] = refl
length-written (c ∷ s) = ap suc (length-written s)

pub written-append : (s t : Bytes) → written (s ++ t) ≡ written s ++ written t
unfolding written
written-append [] t = refl
written-append (c ∷ s) t = ap (◌∷◌ (some c)) (written-append s t)

pub length-resize : (c : ℕ) (cells : List (Option ℕ)) → length (resize c cells) ≡ c
unfolding resize
length-resize c cells =
    let n = c - length cells in
    omega (
      arith,
      length-append (take c cells) (replicate n none),
      length-take c cells,
      length-replicate {A = Option ℕ} n none,
    )

pub take-resize :
    (n c : ℕ) (cells : List (Option ℕ))
    → length cells ≤ c
    → n ≤ length cells
    → take n (resize c cells) ≡ take n cells
unfolding resize
take-resize n c cells h k =
    let none_left : n - length cells ≡ 0 = omega arith in
    rw (take_all c cells h, take-append n cells (replicate (c - length cells) none), none_left)
      (append-nil (take n cells))

pub length_begins :
    (n : ℕ) (cells : List (Option ℕ)) (s : Bytes)
    → n ≡ length s
    → take n cells ≡ written s
    → n ≤ length cells
length_begins n cells s e h = omega (arith, e, length-take n cells, length-written s, ap length h)

pub store_lem :
    (i : ℕ) (t : Bytes) (cells : List (Option ℕ))
    → i + length t ≤ length cells
    → store i t cells ≡ some ((take i cells ++ written t) ++ drop (i + length t) cells)
unfolding store
store_lem i t cells h = rw (le→leb (i + length t) (length cells) h, append_assoc) refl
  where
    le→leb : (n m : ℕ) → n ≤ m → leb n m ≡ true
    le→leb n m k = ground arith
