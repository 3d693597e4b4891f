-- ===== src/Tools/Edit/Search.antt =====
-- main.c: the `strstr` of `edit_file_tool`: what is found stands at its offset, and where there is a
-- place the search gives one, none behind it.
use sa.Prelude.{
  ℕ, suc, ◌+◌, ◌≤◌, ◌≡◌, refl, ap, true, Option, none, some, [], ◌∷◌, ◌++◌, arith, ◌==◌,
  if◌then◌else◌, ==_refl, &&-true, if-split, length, take, drop,
}
use sa.Prelude.Bytes.{Bytes, starts_with}
use sa.Tools.Edit.{next_offset, strstr}

starts_with_split : (n s : Bytes) → starts_with n s ≡ true → s ≡ n ++ drop (length n) s
unfolding starts_with
starts_with_split [] s h = refl
starts_with_split (p ∷ n) [] h = absurd (ground arith)
starts_with_split (p ∷ n) (c ∷ s) h =
    let both = &&-true (p == c) (starts_with n s) h in
    let same : p ≡ c = ground arith in rw same (ap (◌∷◌ c) (starts_with_split n s both.1))

pub starts_with-append : (n b : Bytes) → starts_with n (n ++ b) ≡ true
unfolding starts_with
starts_with-append [] b = refl
starts_with-append (p ∷ n) b = rw (==_refl p, starts_with-append n b)

pub strstr_lem :
    (n : Bytes) (c : ℕ) (s : Bytes)
    → strstr n (c ∷ s) ≡ (if starts_with n (c ∷ s) then some 0 else next_offset (strstr n s))
unfolding strstr
strstr_lem n c s = refl

pub strstr-nil : (n : Bytes) → strstr n [] ≡ (if starts_with n [] then some 0 else none)
unfolding strstr
strstr-nil n = refl

-- The string that was found stands at the offset.
abbrev pub FoundAt : Bytes → Bytes → Option ℕ → Type 0
FoundAt n s none = Unit
FoundAt n s (some i) = s ≡ take i s ++ (n ++ drop (i + length n) s)

FoundAt-next :
    (n : Bytes) (c : ℕ) (s : Bytes) (o : Option ℕ)
    → FoundAt n s o
    → FoundAt n (c ∷ s) (next_offset o)
FoundAt-next n c s none h = tt
FoundAt-next n c s (some i) h =
    let one_more : suc i + length n ≡ suc (i + length n) = omega arith in rw one_more (ap (◌∷◌ c) h)

FoundAt-here : (n s : Bytes) → starts_with n s ≡ true → FoundAt n s (some 0)
FoundAt-here n s h =
    let same : 0 + length n ≡ length n = omega arith in rw same (starts_with_split n s h)

pub strstr-FoundAt : (n s : Bytes) → FoundAt n s (strstr n s)
strstr-FoundAt n [] =
    rw (strstr-nil n)
      (if-split (FoundAt n []) (starts_with n []) (FoundAt-here n []) (λ no_match. tt))
strstr-FoundAt n (c ∷ s) = rw (strstr_lem n c s) (
    if-split (FoundAt n (c ∷ s)) (starts_with n (c ∷ s)) (FoundAt-here n (c ∷ s))
      (λ later. FoundAt-next n c s (strstr n s) (strstr-FoundAt n s)))

-- Where there is a match, the search gives one.
abbrev pub IsFound : Option ℕ → Type 0
IsFound none = ⊥
IsFound (some i) = Unit

IsFound-next : (o : Option ℕ) → IsFound o → IsFound (next_offset o)
IsFound-next none h = h
IsFound-next (some i) h = h

IsFound-here : (n s : Bytes) → starts_with n s ≡ true → IsFound (strstr n s)
IsFound-here n [] h = rw (strstr-nil n, h) tt
IsFound-here n (c ∷ s) h = rw (strstr_lem n c s, h) tt

pub strstr-IsFound : (n a b : Bytes) → IsFound (strstr n (a ++ (n ++ b)))
strstr-IsFound n [] b = IsFound-here n (n ++ b) (starts_with-append n b)
strstr-IsFound n (c ∷ a) b = rw (strstr_lem n c (a ++ (n ++ b))) (
    if-split IsFound (starts_with n (c ∷ (a ++ (n ++ b)))) {x = some 0} (λ here. tt)
      (λ later. IsFound-next (strstr n (a ++ (n ++ b))) (strstr-IsFound n a b)))

-- The search finds no place behind a given one.
abbrev pub IsWithin : ℕ → Option ℕ → Type 0
IsWithin k none = ⊥
IsWithin k (some i) = i ≤ k

IsWithin-next : (k : ℕ) (o : Option ℕ) → IsWithin k o → IsWithin (suc k) (next_offset o)
IsWithin-next k none h = h
IsWithin-next k (some i) h = omega arith

IsWithin-found : (k : ℕ) (o : Option ℕ) → o ≡ some 0 → IsWithin k o
IsWithin-found k o h = rw h (omega arith)

strstr-zero : (n s : Bytes) → starts_with n s ≡ true → strstr n s ≡ some 0
strstr-zero n [] h = rw (strstr-nil n, h)
strstr-zero n (c ∷ s) h = rw (strstr_lem n c s, h)

pub strstr-IsWithin : (n a b : Bytes) → IsWithin (length a) (strstr n (a ++ (n ++ b)))
strstr-IsWithin n [] b =
    IsWithin-found 0 (strstr n (n ++ b)) (strstr-zero n (n ++ b) (starts_with-append n b))
strstr-IsWithin n (c ∷ a) b = rw (strstr_lem n c (a ++ (n ++ b))) (
    if-split (IsWithin (suc (length a))) (starts_with n (c ∷ (a ++ (n ++ b)))) {x = some 0}
      (λ here. omega arith)
      (λ later. IsWithin-next (length a) (strstr n (a ++ (n ++ b))) (strstr-IsWithin n a b)))
