-- ===== src/Tools/Edit/Replaces.antt =====
-- main.c: `edit_file_tool` against its description: the one match of the old string is replaced, or
-- the file stays.
use sa.Prelude.{
  ℕ, suc, ◌+◌, ◌≤◌, ◌<◌, ◌≡◌, refl, ap, ◌∙◌, ◌⊎◌, inl, inr, true, false, not, ◌||◌, Option, none,
  some, [], ◌∷◌, ◌++◌, append_assoc, arith, ltb, ◌==◌, Bool-cases, Option-cases, if-split, length,
  take, drop, length-append, length-take, take_all,
}
use sa.Prelude.Bytes.{Bytes, c_string, is_text, c_string-is_text}
use sa.Tools.Write.{atomic_write, Target}
use sa.Tools.Write.Outcomes.{Writes, atomic_write-Writes, atomic_write-IsEither}
use sa.Tools.Edit.{
  strstr, count_matches, max_edit_size, replace_at, edit_body, edit_contents, edit_file_tool,
  EditCalls,
}
use sa.Tools.Edit.Search.{FoundAt, strstr-FoundAt}
use sa.Tools.Edit.Unique.{
  count_none, IsReplacement, OccursApart, OccursAt, take-append_own, drop-append_two, found_offset,
  count_one, count_apart,
}

-- A body with one place of the old string gets the new string there and nowhere else, and the bytes
-- around it stay, where the file holds no NUL and at most 4 MB, the path is short and the calls of
-- the C library succeed.
pub edit_file_tool_lem :
    (calls : EditCalls) (target : Target) (path a old b new : Bytes)
    → target.file ≡ some (a ++ (old ++ b))
    → 0 < length old
    → is_text (a ++ (old ++ b)) ≡ true
    → OccursAt old a b
    → calls.fopen ≡ true
    → calls.ftell ≡ true
    → length (a ++ (old ++ b)) ≤ calls.readable
    → length (a ++ (old ++ b)) ≤ max_edit_size
    → length path < 1013
    → Writes calls.writing (length (a ++ (new ++ b)))
    → (edit_file_tool calls target path old new).0
      ≡ record { file = some (a ++ (new ++ b)); temporary = none }
unfolding edit_file_tool edit_body replace_at
edit_file_tool_lem calls target path a old b new present h text unique opened sized readable small
      short writes =
    let body = a ++ (old ++ b) in
    let some_old : (length old == 0) ≡ false = ground arith in
    let fits : ltb max_edit_size (length body) ≡ false = ground arith in
    rw
      (
        some_old,
        present,
        opened,
        sized,
        fits,
        take_all calls.readable body readable,
        c_string-is_text body text,
        count_one old a b (length body) h unique,
        found_offset old a b h unique,
        take-append_own a (old ++ b),
        drop-append_two a old b,
      )
      (atomic_write-Writes calls.writing (record target { file = some body }) path (a ++ (new ++ b))
        short writes)

-- What an edit may make of the file: it stays, or it is written whole, or the bytes that were read
-- of it get the new string in one place of the old one, where no two places of the text that do not
-- overlap hold the old string.
abbrev pub IsEdited : EditCalls → (old new : Bytes) → (before after : Option Bytes) → Type 0
IsEdited calls old new before after =
    (after ≡ before)
    ⊎ ((length old ≡ 0) × (after ≡ some new))
    ⊎ ((body : Bytes) × (content : Bytes) × (before ≡ some body)
        × (after ≡ some content)
        × IsReplacement old new (take calls.readable body) content
        × ¬ OccursApart old (c_string (take calls.readable body)))

c_string_tail : (s : Bytes) → (tail : Bytes) × (s ≡ c_string s ++ tail)
unfolding c_string
c_string_tail [] = ([], refl)
c_string_tail (c ∷ s) =
    let rest = c_string_tail s in
    elim (Bool-cases (c == 0)) [
      | inl ends ↦ (c ∷ s, rw ends)
      | inr goes_on ↦ (rest.0, rw goes_on (ap (◌∷◌ c) (rest.1)))
    ]

found_inside :
    (old s : Bytes) (i : ℕ) → 0 < length old → FoundAt old s (some i) → i ≡ length (take i s)
found_inside old s i h found =
    let rest = drop (i + length old) s in
    let sizes : length s ≡ length (take i s ++ (old ++ rest)) = ap length found in
    omega (
      arith,
      sizes,
      length-append (take i s) (old ++ rest),
      length-append old rest,
      length-take i s,
    )

replace_at-append :
    (a old b new : Bytes) → replace_at (a ++ (old ++ b)) (length a) old new ≡ a ++ (new ++ b)
unfolding replace_at
replace_at-append a old b new = rw (take-append_own a (old ++ b), drop-append_two a old b)

-- A place in the text before the first NUL is a place in the body.
replace_at-IsReplacement :
    (old new body : Bytes) (i : ℕ)
    → 0 < length old
    → FoundAt old (c_string body) (some i)
    → IsReplacement old new body (replace_at body i old new)
replace_at-IsReplacement old new body i h found =
    let text = c_string body in
    let a = take i text in
    let behind = c_string_tail body in
    let b = drop (i + length old) text ++ behind.0 in
    let whole : body ≡ a ++ (old ++ b) =
      behind.1 ∙ (ap (λ t. t ++ behind.0) found ∙ rw (append_assoc, append_assoc)) in
    let written : replace_at body i old new ≡ a ++ (new ++ b) =
      ap (λ at. replace_at body at old new) (found_inside old text i h found)
      ∙ (ap (λ s. replace_at s (length a) old new) whole ∙ replace_at-append a old b new) in
    (a, b, whole, written)

abbrev IsEditedBy : EditCalls → Target → (old new : Bytes) → Target × Bytes → Type 0
IsEditedBy calls target old new r = IsEdited calls old new target.file r.0.file

write-IsEditedBy :
    (calls : EditCalls) (target : Target) (path old new body content : Bytes)
    → target.file ≡ some body
    → IsReplacement old new (take calls.readable body) content
    → ¬ OccursApart old (c_string (take calls.readable body))
    → IsEditedBy calls target old new (atomic_write calls.writing target path content)
write-IsEditedBy calls target path old new body content present replaced one =
    elim (atomic_write-IsEither calls.writing target path content) [
      | inl same ↦ inl same
      | inr written ↦ inr (inr (body, content, present, written, replaced, one))
    ]

found_if_counted :
    (old text : Bytes)
    → (count_matches (suc (length text)) old text == 0) ≡ false
    → (i : ℕ) × (strstr old text ≡ some i)
found_if_counted old text h = elim (Option-cases (strstr old text)) [
  | inl missing ↦ absurd (ground (arith, count_none (suc (length text)) old text missing))
  | inr found ↦ found
]

counted_once :
    (old text : Bytes)
    → 0 < length old
    → ltb 1 (count_matches (suc (length text)) old text) ≡ false
    → ¬ OccursApart old text
counted_once old text h one (a, b, c, split) =
    let rest = b ++ (old ++ c) in
    let sizes : length text ≡ length (a ++ (old ++ rest)) = ap length split in
    let some_bytes : 0 < length text =
      omega (arith, sizes, length-append a (old ++ rest), length-append old rest) in
    let more : 1 < count_matches (suc (length text)) old text =
      rw (ap (count_matches (suc (length text)) old) split)
        (count_apart (length text) old a b c some_bytes) in
    ground (arith, more, one)

edit_body-IsEditedBy :
    (calls : EditCalls) (target : Target) (path old new body : Bytes)
    → 0 < length old
    → target.file ≡ some body
    → IsEditedBy calls target old new
        (edit_body calls target path old new (take calls.readable body))
unfolding edit_body
edit_body-IsEditedBy calls target path old new body h present =
    let text = c_string (take calls.readable body) in
    let count = count_matches (suc (length text)) old text in
    if-split (IsEditedBy calls target old new) (count == 0) (λ nothing. inl refl)
      (λ counted.
        if-split (IsEditedBy calls target old new) (ltb 1 count) (λ many. inl refl)
          (λ one.
            let found = found_if_counted old text counted in
            rw (found.1) (
              write-IsEditedBy calls target path old new body _ present
                (replace_at-IsReplacement old new (take calls.readable body) found.0 h
                  (rw (found.1) at (strstr-FoundAt old text)))
                (counted_once old text h one))))

edit_contents-IsEditedBy :
    (calls : EditCalls) (target : Target) (path old new : Bytes) (file : Option Bytes)
    → 0 < length old
    → target.file ≡ file
    → IsEditedBy calls target old new (edit_contents calls target path old new file)
edit_contents-IsEditedBy calls target path old new none h present = inl refl
edit_contents-IsEditedBy calls target path old new (some body) h present =
    if-split (IsEditedBy calls target old new) (not calls.fopen) (λ failure. inl refl)
      (λ opened.
        if-split (IsEditedBy calls target old new)
          (not calls.ftell || ltb max_edit_size (length body)) (λ large. inl refl)
          (λ small. edit_body-IsEditedBy calls target path old new body h present))

-- Whatever the file holds and whichever calls of the C library fail (`fwrite` may take less, and
-- `fclose` may lose what it took), the file is as before, or is written whole with the new string for
-- an empty old one, or is what was read of it with one place of the old string replaced; then no two
-- places of its text, up to a NUL byte, hold the old string without overlapping.
pub edit_file_tool-IsEdited :
    (calls : EditCalls) (target : Target) (path old new : Bytes)
    → IsEdited calls old new target.file (edit_file_tool calls target path old new).0.file
unfolding edit_file_tool
edit_file_tool-IsEdited calls target path old new =
    if-split (IsEditedBy calls target old new) (length old == 0)
      (λ empty. elim (atomic_write-IsEither calls.writing target path new) [
        | inl same ↦ inl same
        | inr written ↦ inr (inl (ground arith, written))
      ])
      (λ some_old.
        edit_contents-IsEditedBy calls target path old new target.file (ground arith) refl)
