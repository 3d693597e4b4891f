-- ===== src/Prompt/Text.antt =====
-- main.c: the string functions behind the prompt: `trim`, `append_fold`, `buf_append_xml_escaped`, and
-- `fgets` as it is used.
pub mod Escape
pub mod Trim
pub mod Lines
use sa.Prelude.{
  ℕ, ◌+◌, ◌-◌, Bool, ◌||◌, Option, none, some, List, [], ◌∷◌, ◌++◌, leb, ◌==◌, if◌then◌else◌,
  length, take,
}
use sa.Prelude.Bytes.{Bytes, codes}

abbrev pub is_blank : ℕ → Bool
is_blank c = c == b' ' || c == b'\t'

abbrev pub is_trailing : ℕ → Bool
is_trailing c = is_blank c || c == b'\r' || c == b'\n'

unfoldable pub skip_while : (ℕ → Bool) → Bytes → Bytes
skip_while p [] = []
skip_while p (c ∷ s) = let rest = skip_while p s in if p c then rest else c ∷ s

abbrev cons_unless : Bool → ℕ → Bytes → Bytes
cons_unless dropped c [] = if dropped then [] else c ∷ []
cons_unless dropped c (e ∷ s) = c ∷ e ∷ s

-- The bytes up to the last one that is not of the kind.
unfoldable pub strip_while : (ℕ → Bool) → Bytes → Bytes
strip_while p [] = []
strip_while p (c ∷ s) = cons_unless (p c) c (strip_while p s)

-- The bytes without the last, which is `q`, or none where the last is another.
unfoldable pub without_last : ℕ → Bytes → Option Bytes
without_last q [] = none
without_last q (c ∷ []) = if c == q then some [] else none
without_last q (c ∷ e ∷ s) = elim (without_last q (e ∷ s)) [ none ↦ none | some t ↦ some (c ∷ t) ]

abbrev inside_or : Bytes → Option Bytes → Bytes
inside_or s none = s
inside_or s (some t) = t

-- A pair of quotes around the whole is taken off.
unfoldable pub unquote : Bytes → Bytes
unquote [] = []
unquote (c ∷ s) = if c == b'"' || c == 39 then inside_or (c ∷ s) (without_last c s) else c ∷ s

unfoldable pub trim : Bytes → Bytes
trim s = unquote (strip_while is_trailing (skip_while is_blank s))

-- `dst` is an array of `size` bytes, and holds a string.
unfoldable pub append_fold : (size : ℕ) → Bytes → Bytes → (fold : Bool) → Bytes
append_fold size dst s fold =
    let joined = dst ++ (if fold then b' ' else b'\n') ∷ [] in
    if leb size (length dst + 1)
    then dst
    else if length dst == 0
    then take (size - 1) s
    else if leb size (length dst + 2)
    then dst
    else joined ++ take (size - length joined - 1) s

unfoldable pub escape_xml_byte : ℕ → Bytes
escape_xml_byte c =
    if c == b'<'
    then codes "&lt;"
    else if c == b'>'
    then codes "&gt;"
    else if c == b'&'
    then codes "&amp;"
    else c ∷ []

-- `buf_append_xml_escaped`: what is appended.
unfoldable pub escape_xml : Bytes → Bytes
escape_xml [] = []
escape_xml (c ∷ s) = escape_xml_byte c ++ escape_xml s

abbrev pub onto_head : ℕ → List Bytes → List Bytes
onto_head c [] = (c ∷ []) ∷ []
onto_head c (l ∷ ls) = (c ∷ l) ∷ ls

-- What the calls `fgets(line, room + 1, f)` give; `left` is what the line at hand has room for, less
-- one.
unfoldable pub fgets_from : (room left : ℕ) → Bytes → List Bytes
fgets_from room left [] = []
fgets_from room left (c ∷ s) =
    let fresh = fgets_from room (room - 1) s in
    let same = fgets_from room (left - 1) s in
    if c == b'\n' || left == 0 then (c ∷ []) ∷ fresh else onto_head c same

unfoldable pub fgets_lines : (size : ℕ) → Bytes → List Bytes
fgets_lines size s = fgets_from (size - 1) (size - 2) s
