-- ===== src/Tools/Edit/Unique.antt =====
-- main.c: the matches in `edit_file_tool`: a body with one place of the old string counts one match,
-- at that place, and two places that do not overlap count more.
use sa.Prelude.{
  ℕ, zero, suc, ◌+◌, ◌≤◌, ◌<◌, ◌≡◌, refl, ap, ◌∙◌, inl, inr, none, some, [], ◌∷◌, ◌++◌,
  append_assoc, arith, Option-cases, length, take, drop, length-append, length-take,
}
use sa.Prelude.Bytes.{Bytes}
use sa.Tools.Edit.{strstr, count_matches}
use sa.Tools.Edit.Search.{FoundAt, strstr-FoundAt, strstr-IsFound, strstr-IsWithin}

-- One round of the loop that counts.
count_matches_lem :
    (fuel : ℕ) (old p : Bytes)
    → count_matches (suc fuel) old p ≡ elim (strstr old p) [
      | none ↦ 0
      | some i ↦ suc (count_matches fuel old (drop (i + length old) p))
    ]
unfolding count_matches
count_matches_lem fuel old p = refl

pub count_none : (fuel : ℕ) (old p : Bytes) → strstr old p ≡ none → count_matches fuel old p ≡ 0
unfolding count_matches
count_none zero old p h = refl
count_none (suc fuel) old p h = rw (count_matches_lem fuel old p, h)

-- What an edit makes of a body: one place of the old string holds the new one.
abbrev pub IsReplacement : (old new body content : Bytes) → Type 0
IsReplacement old new body content =
    (a : Bytes) × (b : Bytes) × (body ≡ a ++ (old ++ b)) × (content ≡ a ++ (new ++ b))

-- Two places of a text that do not overlap hold the old string.
abbrev pub OccursApart : (old text : Bytes) → Type 0
OccursApart old text =
    (a : Bytes) × (b : Bytes) × (c : Bytes) × (text ≡ a ++ (old ++ (b ++ (old ++ c))))

-- No other place of a body holds the old string.
abbrev pub OccursAt : (old a b : Bytes) → Type 0
OccursAt old a b = (x y : Bytes) → a ++ (old ++ b) ≡ x ++ (old ++ y) → length x ≡ length a

pub take-append_own : (a c : Bytes) → take (length a) (a ++ c) ≡ a
take-append_own [] c = refl
take-append_own (x ∷ a) c = ap (◌∷◌ x) (take-append_own a c)

drop-append_own : (a c : Bytes) → drop (length a) (a ++ c) ≡ c
drop-append_own [] c = refl
drop-append_own (x ∷ a) c = drop-append_own a c

pub drop-append_two : (a old b : Bytes) → drop (length a + length old) (a ++ (old ++ b)) ≡ b
drop-append_two [] old b =
    let same : 0 + length old ≡ length old = omega arith in rw same (drop-append_own old b)
drop-append_two (x ∷ a) old b =
    let one_more : suc (length a) + length old ≡ suc (length a + length old) = omega arith in
    rw one_more (drop-append_two a old b)

-- A place that was found is inside, so it is the only one.
only_offset :
    (old a b : Bytes) (i : ℕ)
    → 0 < length old
    → OccursAt old a b
    → FoundAt old (a ++ (old ++ b)) (some i)
    → i ≡ length a
only_offset old a b i h unique found =
    let whole = a ++ (old ++ b) in
    let rest = drop (i + length old) whole in
    let at : length (take i whole) ≡ length a = unique (take i whole) rest found in
    let sizes : length whole ≡ length (take i whole ++ (old ++ rest)) = ap length found in
    omega (
      arith,
      at,
      sizes,
      length-append (take i whole) (old ++ rest),
      length-append old rest,
      length-take i whole,
    )

pub found_offset :
    (old a b : Bytes)
    → 0 < length old
    → OccursAt old a b
    → strstr old (a ++ (old ++ b)) ≡ some (length a)
found_offset old a b h unique =
    let whole = a ++ (old ++ b) in
    elim (Option-cases (strstr old whole)) [
      | inl missing ↦ absurd (rw missing at (strstr-IsFound old a b))
      | inr (i, e) ↦
          e ∙ ap some (only_offset old a b i h unique (rw e at (strstr-FoundAt old whole)))
    ]

-- Behind the only place there is no other.
no_second :
    (old a b : Bytes) (i : ℕ) → 0 < length old → OccursAt old a b → FoundAt old b (some i) → ⊥
no_second old a b i h unique found =
    let rest = drop (i + length old) b in
    let before = a ++ (old ++ take i b) in
    let split : a ++ (old ++ b) ≡ before ++ (old ++ rest) =
      ap (λ tail. a ++ (old ++ tail)) found ∙ rw (append_assoc, append_assoc) in
    let at : length before ≡ length a = unique before rest split in
    omega (arith, at, length-append a (old ++ take i b), length-append old (take i b))

pub count_one :
    (old a b : Bytes) (fuel : ℕ)
    → 0 < length old
    → OccursAt old a b
    → count_matches (suc fuel) old (a ++ (old ++ b)) ≡ 1
count_one old a b fuel h unique =
    let nothing : strstr old b ≡ none = elim (Option-cases (strstr old b)) [
      | inl missing ↦ missing
      | inr (i, e) ↦ absurd (no_second old a b i h unique (rw e at (strstr-FoundAt old b)))
    ] in
    rw
      (count_matches_lem fuel old (a ++ (old ++ b)), found_offset old a b h unique, drop-append_two)
      (ap suc (count_none fuel old b nothing))

pub drop-within : (k : ℕ) (p s : Bytes) → k ≤ length p → drop k (p ++ s) ≡ drop k p ++ s
drop-within zero p s h = refl
drop-within (suc k) [] s h = absurd (omega arith)
drop-within (suc k) (x ∷ p) s h = drop-within k p s (omega arith)

some_match : (fuel : ℕ) (old e c : Bytes) → 0 < fuel → 0 < count_matches fuel old (e ++ (old ++ c))
some_match zero old e c h = absurd (omega arith)
some_match (suc fuel) old e c h = elim (Option-cases (strstr old (e ++ (old ++ c)))) [
  | inl missing ↦ absurd (rw missing at (strstr-IsFound old e c))
  | inr (i, found) ↦ rw (count_matches_lem fuel old (e ++ (old ++ c)), found) (omega arith)
]

-- Two places that do not overlap are two matches at least.
pub count_apart :
    (fuel : ℕ) (old a b c : Bytes)
    → 0 < fuel
    → 1 < count_matches (suc fuel) old (a ++ (old ++ (b ++ (old ++ c))))
count_apart fuel old a b c h =
    let text = a ++ (old ++ (b ++ (old ++ c))) in
    elim (Option-cases (strstr old text)) [
      | inl missing ↦ absurd (rw missing at (strstr-IsFound old a (b ++ (old ++ c))))
      | inr (i, found) ↦
          let within : i ≤ length a = rw found at (strstr-IsWithin old a (b ++ (old ++ c))) in
          let front = a ++ (old ++ b) in
          let split : text ≡ front ++ (old ++ c) = rw (append_assoc, append_assoc) in
          let size : i + length old ≤ length front =
            omega (arith, within, length-append a (old ++ b), length-append old b) in
          let rest : drop (i + length old) text ≡ drop (i + length old) front ++ (old ++ c) =
            ap (drop (i + length old)) split ∙ drop-within (i + length old) front (old ++ c) size in
          let more : 0 < count_matches fuel old (drop (i + length old) text) =
            rw rest (some_match fuel old (drop (i + length old) front) c h) in
          rw (count_matches_lem fuel old text, found) (omega (arith, more))
    ]
