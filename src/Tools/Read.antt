-- ===== src/Tools/Read.antt =====
-- main.c: `read_file_tool`: the numbered lines of a file from an offset on.
pub mod Page
use sa.Prelude.{
  ℕ, suc, ◌+◌, ◌-◌, ◌*◌, not, Option, none, some, List, [], ◌∷◌, ◌++◌, ltb, leb, ◌==◌,
  if◌then◌else◌, length, replicate,
}
use sa.Prelude.Bytes.{Bytes, codes, c_string, is_text}
use sa.Prelude.Int.{pos_part, ltb_ℤ, leb_ℤ, ℤ, pos}
use sa.Prelude.Decimal.{decimal}
use sa.Session.Store.{getlines}
use sa.Tools.Write.{print_into}

-- The variables of the loop.
pub record Reading : Type 0 where
  pub lineno : ℕ
  pub lines_read : ℕ
  pub total : ℕ
  pub out : Bytes

abbrev pub unread : Reading
unread = record { lineno = 0; lines_read = 0; total = 0; out = [] }

abbrev pub max_read_bytes : ℕ
max_read_bytes = 256 * 1024

-- `"%6ld\t"`.
abbrev pub line_prefix : ℕ → Bytes
line_prefix n = replicate (6 - length (decimal n)) b' ' ++ (decimal n ++ b'\t' ∷ [])

-- The call gives the length 33, which takes in the NUL of the literal.
abbrev pub cap_notice : Bytes
cap_notice = codes "\n[truncated: 256KB cap reached]\n" ++ 0 ∷ []

-- A line is appended with its number.
unfoldable pub show_line : Reading → Bytes → Reading
show_line r l =
    let n = suc r.lineno in
    let shown = line_prefix n ++ l in
    record {
      lineno = n;
      lines_read = suc r.lines_read;
      total = r.total + length shown;
      out = r.out ++ shown;
    }

-- The loop over the lines that `getline` gives; none is the error on a NUL byte.
unfoldable pub scan : (offset limit : ℕ) → Reading → List Bytes → Option Reading
scan offset limit r [] = some r
scan offset limit r (l ∷ ls) =
    let numbered = record r { lineno = suc r.lineno } in
    let next = show_line r l in
    let skipped = scan offset limit numbered ls in
    let rest = scan offset limit next ls in
    if not (is_text l)
    then none
    else if ltb (suc r.lineno) offset
    then skipped
    else if leb limit r.lines_read
    then some numbered
    else if ltb max_read_bytes next.total
    then some (record next { out = next.out ++ cap_notice })
    else rest

-- `limit <= 0` and `offset < 1` are replaced.
abbrev pub actual_limit : ℤ → ℕ
actual_limit z = if leb_ℤ z (pos 0) then 2000 else pos_part z

abbrev pub actual_offset : ℤ → ℕ
actual_offset z = if ltb_ℤ z (pos 1) then 1 else pos_part z

abbrev pub limit_notice : (limit lineno : ℕ) → Bytes
limit_notice limit lineno = print_into 128 (
    codes "\n[limit "
    ++ (decimal limit
        ++ (codes " reached; use offset=" ++ (decimal lineno ++ codes " to continue]\n"))))

-- What is returned behind the loop.
unfoldable pub finish_read : (offset limit : ℕ) → Option Reading → Bytes
finish_read offset limit none =
    codes "error: binary file (NUL byte detected); use shell for binary reads"
finish_read offset limit (some r) =
    if r.lines_read == 0
    then if r.lineno == 0
      then codes "(empty file)"
      else print_into 128 (
          codes "error: offset "
          ++ (decimal offset
              ++ (codes " beyond end (file has " ++ (decimal r.lineno ++ codes " lines)"))))
    else c_string (r.out ++ (if r.lines_read == limit then limit_notice limit r.lineno else []))

-- `error` is the text of `strerror(errno)` where `fopen` fails.
unfoldable pub read_file_tool :
    (error : Bytes) → Option Bytes → (path : Bytes) → (offset limit : ℤ) → Bytes
read_file_tool error none path offset limit =
    print_into 512 (codes "error: cannot open " ++ (path ++ (codes ": " ++ error)))
read_file_tool error (some content) path offset limit =
    let from = actual_offset offset in
    let count = actual_limit limit in
    finish_read from count (scan from count unread (getlines content))
