-- ===== src/Tools/Dispatch.antt =====
-- main.c: `dispatch_tool`. The system calls behind the tools are an interface.
pub mod Required
use sa.Prelude.{Option, none, some, if◌then◌else◌, Bool}
use sa.Prelude.Bytes.{Bytes, codes, equal}
use sa.Prelude.Int.{ℤ, pos}
use sa.Json.Value.{Json}
use sa.Json.Number.{Doubles}
use sa.Json.Access.{get_object_item, get_number_value, get_text}
use sa.Tools.Shell.{wrapped, run_shell, Ended}
use sa.Tools.Write.{Target}
use sa.Tools.Edit.{edit_file_tool, EditCalls}
use sa.Session.Store.{RewriteCalls}
use sa.Tools.Read.{read_file_tool}

-- The system that the tools work on: `popen` up to `pclose`, the file and the temporary file of a path,
-- and how the calls on them end.
pub record System : Type 1 where
  pub World : Type 0
  pub popen : World → Bytes → World × Option (Bytes × Ended)
  pub target : World → Bytes → Target
  pub set_target : World → Bytes → Target → World
  pub edit_calls : World → Bytes → EditCalls
  pub opened : World → Bytes → Option Bytes
  pub open_error : World → Bytes → Bytes
  -- How the system calls of `session_append` and `session_rewrite` end.
  pub opens : World → Bool
  pub rewrites : World → RewriteCalls

-- The call that a tool use asks for, or the text that says why there is none.
pub data Call : Type 0 where
  shell : (cmd : Bytes) → Call
  edit_file : (path old new : Bytes) → Call
  read_file : (path : Bytes) → (offset limit : ℤ) → Call
  refusal : Bytes → Call

abbrev pub shell_call : Option Bytes → Call
shell_call none = refusal (codes "error: shell requires cmd")
shell_call (some cmd) = shell cmd

abbrev pub edit_call : (path old new : Option Bytes) → Call
edit_call (some path) (some old) (some new) = edit_file path old new
edit_call _ _ _ = refusal (codes "error: edit_file requires path, old_string, new_string")

abbrev pub read_call : Option Bytes → (offset limit : ℤ) → Call
read_call none offset limit = refusal (codes "error: read_file requires path")
read_call (some path) offset limit = read_file path offset limit

module _ (d : Doubles) where
  open d use {Double, to_long}

  -- `cJSON_IsNumber(v) ? (long)v->valuedouble : otherwise`.
  abbrev pub long_or : ℤ → Option Double → ℤ
  long_or otherwise none = otherwise
  long_or otherwise (some n) = to_long n

  -- The conditions of `dispatch_tool`.
  unfoldable pub call_of : (name : Bytes) → Option (Json Double) → Call
  call_of name input =
      if equal name (codes "shell")
      then shell_call (get_text input (codes "cmd"))
      else if equal name (codes "edit_file")
      then edit_call (get_text input (codes "path")) (get_text input (codes "old_string"))
          (get_text input (codes "new_string"))
      else if equal name (codes "read_file")
      then read_call (get_text input (codes "path"))
          (long_or (pos 1) (get_number_value (get_object_item input (codes "offset"))))
          (long_or (pos 2000) (get_number_value (get_object_item input (codes "limit"))))
      else refusal (codes "error: unknown tool")

  module _ (system : System) where
    open system use {World, popen, target, set_target, edit_calls, opened, open_error}

    unfoldable pub run_call : World → Call → World × Bytes
    run_call w (shell cmd) = let ran = popen w (wrapped cmd) in (ran.0, run_shell ran.1)
    run_call w (edit_file path old new) =
        let edited = edit_file_tool (edit_calls w path) (target w path) path old new in
        (set_target w path edited.0, edited.1)
    run_call w (read_file path offset limit) =
        (w, read_file_tool (open_error w path) (opened w path) path offset limit)
    run_call w (refusal text) = (w, text)

    unfoldable pub dispatch_tool : World → (name : Bytes) → Option (Json Double) → World × Bytes
    dispatch_tool w name input = run_call w (call_of name input)
