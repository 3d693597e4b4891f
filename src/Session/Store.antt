-- ===== src/Session/Store.antt =====
-- main.c: `session_append`, `session_rewrite` and `session_load`. The session file and the temporary
-- file beside it are their contents, or none where there is no file; the outcomes of the system
-- calls are arguments. The messages are the children of the `messages` array.
pub mod Lines
pub mod Reload
use sa.Prelude.{
  ℕ, Bool, not, Option, none, some, List, [], ◌∷◌, ◌++◌, ◌==◌, if◌then◌else◌, length, suc,
}
use sa.Prelude.Bytes.{Bytes}
use sa.Json.Value.{Json}
use sa.Json.Number.{Doubles}
use sa.Json.Printer.{print_value}
use sa.Json.Parser.{parse}

pub record Files : Type 0 where
  pub session : Option Bytes
  pub temporary : Option Bytes

-- What `fopen(path, "a")` finds.
abbrev pub contents : Option Bytes → Bytes
contents none = []
contents (some s) = s

-- Whether the calls succeed: `saved` is for all of `fputs`, `fputc` and `fclose`, whose results the
-- code does not look at, and `remains` is what the temporary file holds where one of them fails.
pub record RewriteCalls : Type 0 where
  pub mkstemp : Bool
  pub fdopen : Bool
  pub saved : Bool
  pub remains : Bytes
  pub rename : Bool
  pub unlink : Bool

-- `unlink(tmp)` on a temporary file that holds `left`.
abbrev pub unlinked : RewriteCalls → Files → Bytes → Files
unlinked calls fs left = record fs { temporary = if calls.unlink then none else some left }

abbrev pub onto_first : ℕ → List Bytes → List Bytes
onto_first c [] = (c ∷ []) ∷ []
onto_first c (l ∷ ls) = (c ∷ l) ∷ ls

-- What the calls of `getline` return: the lines, each with its newline, the last with or without.
unfoldable pub getlines : Bytes → List Bytes
getlines [] = []
getlines (c ∷ s) =
    let rest = getlines s in if c == b'\n' then (b'\n' ∷ []) ∷ rest else onto_first c rest

-- `if (n > 0 && line[n - 1] == '\n') line[--n] = 0`.
unfoldable pub without_newline : Bytes → Bytes
without_newline [] = []
without_newline (c ∷ []) = if c == b'\n' then [] else c ∷ []
without_newline (c ∷ e ∷ s) = c ∷ without_newline (e ∷ s)

module _ (d : Doubles) where
  open d use {Double}

  -- `fputs(s, f); fputc('\n', f)`.
  unfoldable pub message_line : Json Double → Bytes
  message_line m = print_value d m ++ b'\n' ∷ []

  unfoldable pub session_text : List (Json Double) → Bytes
  session_text [] = []
  session_text (m ∷ ms) = message_line m ++ session_text ms

  -- The files, and what goes to stdout under --json. `opened` is whether `fopen` succeeds; the writes
  -- behind it, whose results the code does not look at, are taken to succeed.
  unfoldable pub session_append : (json opened : Bool) → Files → Json Double → Files × Bytes
  session_append json opened fs m =
      let shown = if json then message_line m else [] in
      let written = record fs { session = some (contents fs.session ++ message_line m) } in
      (if opened then written else fs, shown)

  unfoldable pub session_rewrite : RewriteCalls → Files → List (Json Double) → Files
  session_rewrite calls fs ms =
      let written = if calls.saved then session_text ms else calls.remains in
      if not calls.mkstemp
      then fs
      else if not calls.fdopen
      then unlinked calls fs []
      else if calls.rename
      then record { session = some written; temporary = none }
      else unlinked calls fs written

  -- The messages, and how many were added.
  abbrev pub Loaded : Type 0
  Loaded = List (Json Double) × ℕ

  abbrev pub add_message : Loaded → Option (Json Double) → Loaded
  add_message l none = l
  add_message l (some m) = (l.0 ++ m ∷ [], suc l.1)

  -- One round of the loop.
  unfoldable pub load_line : Loaded → Bytes → Loaded
  load_line loaded line =
      let l = without_newline line in
      if length l == 0 then loaded else add_message loaded (parse d l)

  unfoldable pub load_lines : Loaded → List Bytes → Loaded
  load_lines loaded [] = loaded
  load_lines loaded (l ∷ ls) = load_lines (load_line loaded l) ls

  -- None is where C returns -1.
  unfoldable pub session_load : Files → List (Json Double) → Option Loaded
  session_load fs ms = elim fs.session [
    | none ↦ none
    | some s ↦ some (load_lines (ms, 0) (getlines s))
  ]
