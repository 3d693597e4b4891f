-- ===== src/Tools/Edit.antt =====
-- main.c: `edit_file_tool`.
pub mod Search
pub mod Unique
pub mod Replaces
use sa.Prelude.{
  ℕ, zero, suc, ◌+◌, ◌*◌, Bool, not, Option, none, some, [], ◌∷◌, ◌++◌, ltb, ◌==◌, if◌then◌else◌,
  length, take, drop, ◌||◌,
}
use sa.Prelude.Bytes.{Bytes, codes, starts_with, c_string}
use sa.Prelude.Decimal.{decimal}
use sa.Tools.Write.{print_into, atomic_write, Target, WriteCalls}

-- Whether `fopen` and `ftell` succeed on a file that is there, how many bytes `fread` can give, the text of
-- `strerror(errno)`, and the calls of `atomic_write`.
pub record EditCalls : Type 0 where
  pub fopen : Bool
  pub ftell : Bool
  pub readable : ℕ
  pub open_error : Bytes
  pub writing : WriteCalls

abbrev pub next_offset : Option ℕ → Option ℕ
next_offset none = none
next_offset (some i) = some (suc i)

-- `strstr(s, needle)`, as an offset in `s`.
unfoldable pub strstr : Bytes → Bytes → Option ℕ
strstr needle [] = if starts_with needle [] then some 0 else none
strstr needle (c ∷ s) =
    let later = strstr needle s in if starts_with needle (c ∷ s) then some 0 else next_offset later

-- The count of the loop from `p` on. A match has a byte at least, so that as much fuel as `p` has
-- bytes, and one more, is enough.
unfoldable pub count_matches : ℕ → Bytes → Bytes → ℕ
count_matches zero old p = 0
count_matches (suc fuel) old p = elim (strstr old p) [
  | none ↦ 0
  | some i ↦ suc (count_matches fuel old (drop (i + length old) p))
]

abbrev pub max_edit_size : ℕ
max_edit_size = 4 * 1024 * 1024

-- `first - body`, where there is a match.
abbrev pub offset_or_zero : Option ℕ → ℕ
offset_or_zero none = 0
offset_or_zero (some i) = i

-- The new content: `memcpy` of the bytes before the match, the new string, the bytes behind.
unfoldable pub replace_at : Bytes → ℕ → Bytes → Bytes → Bytes
replace_at body at old new = take at body ++ (new ++ drop (at + length old) body)

-- The rest of the handler, once the file is read.
unfoldable pub edit_body : EditCalls → Target → (path old new body : Bytes) → Target × Bytes
edit_body calls target path old new body =
    let text = c_string body in
    let count = count_matches (suc (length text)) old text in
    if count == 0
    then (target, codes "error: old_string not found")
    else if ltb 1 count
    then (
      target,
      print_into 128
          (codes "error: old_string matched " ++ (decimal count ++ codes " times; make it unique")),
    )
    else atomic_write calls.writing target path
        (replace_at body (offset_or_zero (strstr old text)) old new)

unfoldable pub open_failed : EditCalls → Bytes → Bytes
open_failed calls path =
    print_into 512 (codes "error: open " ++ (path ++ (codes ": " ++ calls.open_error)))

abbrev pub edit_contents :
    EditCalls → Target → (path old new : Bytes) → Option Bytes → Target × Bytes
edit_contents calls target path old new none = (target, open_failed calls path)
edit_contents calls target path old new (some content) =
    if not calls.fopen
    then (target, open_failed calls path)
    else if not calls.ftell || ltb max_edit_size (length content)
    then (target, codes "error: file too large for edit (>4MB)")
    else edit_body calls target path old new (take calls.readable content)

unfoldable pub edit_file_tool : EditCalls → Target → (path old new : Bytes) → Target × Bytes
edit_file_tool calls target path old new =
    if length old == 0
    then atomic_write calls.writing target path new
    else edit_contents calls target path old new target.file
