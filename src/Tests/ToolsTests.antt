-- ===== src/Tests/ToolsTests.antt =====
-- main.c: the tools: runs and instances.
use Prim.Native.String.{String}
use sa.Prelude.{ℕ, ◌≡◌, refl, true, none, some, [], ◌∷◌, arith, List, false}
use sa.Prelude.Bytes.{Bytes, codes, starts_with, c_string}
use sa.Prelude.Decimal.{decimal}
use sa.Prelude.Int.{pos}
use sa.Session.Store.{getlines}
use sa.Tools.Read.{unread, show_line, scan, finish_read, read_file_tool}
use sa.Tools.Read.Page.{numbered_from, Holds, scan-page}
use sa.Tools.Write.{atomic_write, Target}
use sa.Tools.Edit.{strstr, count_matches, replace_at, edit_body, edit_file_tool, EditCalls}
use sa.Tools.Edit.Unique.{OccursAt}
use sa.Tools.Edit.Replaces.{edit_file_tool_lem, IsEdited, edit_file_tool-IsEdited}

-- A run in which every call succeeds and writes that many bytes.
abbrev working : ℕ → EditCalls
working n = record {
  fopen = true;
  ftell = true;
  readable = 100;
  open_error = [];
  writing = record {
    mkstemp = true;
    template = [];
    fdopen = true;
    wrote = n;
    fclose = true;
    remains = [];
    rename = true;
    unlink = true;
    error = [];
  };
}

abbrev holding : String → Target
holding s = record { file = some (codes s); temporary = none }

abbrev path : Bytes
path = codes "a.c"

-- Two places that overlap count as one.
edit_runs :
    (edit_file_tool (working 3) (holding "xoy") path (codes "o") (codes "0")
      ≡ (holding "x0y", codes "wrote 3 bytes to a.c"))
    × (edit_file_tool (working 4) (holding "oxoy") path (codes "o") (codes "0")
        ≡ (holding "oxoy", codes "error: old_string matched 2 times; make it unique"))
    × ((edit_file_tool (working 2) (holding "aaa") path (codes "aa") (codes "b")).0 ≡ holding "ba")
unfolding edit_file_tool edit_body atomic_write replace_at count_matches strstr starts_with c_string
    decimal
edit_runs = (refl, refl, refl)

-- A short write leaves the file, and a temporary file where it cannot be removed.
short_write_runs :
    (edit_file_tool
      (record (working 2) { writing = record ((working 2).writing) { unlink = false } })
      (holding "xoy")
      path
      (codes "o")
      (codes "0"))
    ≡ (
      record { file = some (codes "xoy"); temporary = some (codes "x0") },
      codes "error: write failed",
    )
unfolding edit_file_tool edit_body atomic_write replace_at count_matches strstr starts_with c_string
short_write_runs = refl

-- The text "xoy" has its one "o" behind its first byte.
o_once : OccursAt (codes "o") (codes "x") (codes "y")
o_once [] y e = absurd (ground arith)
o_once (c ∷ []) y e = refl
o_once (c ∷ c' ∷ []) y e = absurd (ground arith)
o_once (c ∷ c' ∷ c'' ∷ []) y e = absurd (ground arith)
o_once (c ∷ c' ∷ c'' ∷ e' ∷ x) y e = absurd (ground arith)

edit_file_tool_lem_example :
    (edit_file_tool (working 3) (holding "xoy") path (codes "o") (codes "0")).0 ≡ holding "x0y"
unfolding c_string
edit_file_tool_lem_example =
    edit_file_tool_lem (working 3) (holding "xoy") path (codes "x") (codes "o") (codes "y")
      (codes "0") refl (omega arith) refl o_once refl refl (omega arith) (omega arith) (omega arith)
      (refl, refl, refl, refl, refl)

edit_file_tool-IsEdited_example :
    IsEdited (working 3) (codes "o") (codes "0") (some (codes "xoy")) (some (codes "x0y"))
unfolding edit_file_tool edit_body atomic_write replace_at count_matches strstr starts_with c_string
edit_file_tool-IsEdited_example =
    edit_file_tool-IsEdited (working 3) (holding "xoy") path (codes "o") (codes "0")

abbrev three_lines : List Bytes
three_lines = codes "a\n" ∷ codes "b\n" ∷ codes "c\n" ∷ []

-- The file ends with the page, and yet the hint names the last line that was shown.
read_runs :
    read_file_tool [] (some (codes "a\nb\nc\n")) path (pos 2) (pos 2)
    ≡ codes "     2\tb\n     3\tc\n\n[limit 2 reached; use offset=3 to continue]\n"
unfolding read_file_tool scan show_line finish_read getlines decimal c_string
read_runs = refl

scan-page_example : Holds (scan 2 1 unread three_lines) (numbered_from 2 (codes "b\n" ∷ [])) 1
unfolding decimal
scan-page_example = scan-page 2 1 three_lines (omega arith) (refl, (refl, (refl, tt))) (omega arith)
