-- ===== src/Tools/Dispatch/Required.antt =====
-- main.c: the descriptions of the tools against what `dispatch_tool` asks of the input.
use sa.Prelude.{◌≡◌, refl, Bool, true, false, ◌&&◌, Option, none, some, List, [], ◌∷◌, All}
use sa.Prelude.Bytes.{Bytes, codes, equal}
use sa.Prelude.Int.{ℤ}
use sa.Json.Value.{
  append_item, append_field, add_item_to_array, add_item_to_object, add_string_to_object, Json,
  string,
}
use sa.Json.Number.{Doubles}
use sa.Json.Access.{find_field, get_object_item, children, get_string_value, get_text}
use sa.Tools.Schemas.{
  update_field, at_object_item, at_tool_schema, at_tool_props, add_prop, add_required, make_tool,
  make_shell_tool, make_read_file_tool, make_edit_file_tool, made_tools,
}
use sa.Tools.Dispatch.{Call, refusal, shell_call, edit_call, read_call, call_of}

abbrev is_some : Option Bytes → Bool
is_some none = false
is_some (some s) = true

abbrev pub is_call : Call → Bool
is_call (refusal text) = false
is_call _ = true

module _ (d : Doubles) where
  open d use {Double}

  abbrev text_or_empty : Option Bytes → Bytes
  text_or_empty none = []
  text_or_empty (some s) = s

  -- The name in a description.
  abbrev pub tool_name : Json Double → Bytes
  tool_name tool = text_or_empty (get_text (some tool) (codes "name"))

  -- The list of required fields in a description.
  abbrev pub required : Json Double → List (Json Double)
  required tool =
      children
        (get_object_item (get_object_item (some tool) (codes "input_schema")) (codes "required"))

  -- The input has a text under each of the names.
  abbrev pub has_texts : Option (Json Double) → List (Json Double) → Bool
  has_texts input [] = true
  has_texts input (name ∷ names) =
      is_some (get_text input (text_or_empty (get_string_value (some name))))
      && has_texts input names

  shell_asks :
      (tool_name make_shell_tool ≡ codes "shell")
      × (required make_shell_tool ≡ string (codes "cmd") ∷ [])
  unfolding make_shell_tool make_tool at_tool_schema at_tool_props at_object_item update_field
      add_required add_prop get_object_item find_field children equal add_item_to_object
      append_field add_string_to_object add_item_to_array append_item get_text get_string_value
  shell_asks = (refl, refl)

  read_file_asks :
      (tool_name make_read_file_tool ≡ codes "read_file")
      × (required make_read_file_tool ≡ string (codes "path") ∷ [])
  unfolding make_read_file_tool make_tool at_tool_schema at_tool_props at_object_item update_field
      add_required add_prop get_object_item find_field children equal add_item_to_object
      append_field add_string_to_object add_item_to_array append_item get_text get_string_value
  read_file_asks = (refl, refl)

  edit_file_asks :
      (tool_name make_edit_file_tool ≡ codes "edit_file")
      × (required make_edit_file_tool
          ≡ string (codes "path") ∷ string (codes "old_string") ∷ string (codes "new_string") ∷ [])
  unfolding make_edit_file_tool make_tool at_tool_schema at_tool_props at_object_item update_field
      add_required add_prop get_object_item find_field children equal add_item_to_object
      append_field add_string_to_object add_item_to_array append_item get_text get_string_value
  edit_file_asks = (refl, refl)

  is_call-shell : (o : Option Bytes) → is_call (shell_call o) ≡ (is_some o && true)
  is_call-shell none = refl
  is_call-shell (some s) = refl

  is_call-read :
      (o : Option Bytes) (offset limit : ℤ)
      → is_call (read_call o offset limit) ≡ (is_some o && true)
  is_call-read none offset limit = refl
  is_call-read (some s) offset limit = refl

  is_call-edit :
      (p o n : Option Bytes)
      → is_call (edit_call p o n) ≡ (is_some p && (is_some o && (is_some n && true)))
  is_call-edit none o n = refl
  is_call-edit (some p) none n = refl
  is_call-edit (some p) (some o) none = refl
  is_call-edit (some p) (some o) (some n) = refl

  -- What `dispatch_tool` asks of this input for a tool of this description.
  abbrev pub Agrees : Option (Json Double) → Json Double → Type 0
  Agrees input tool = is_call (call_of d (tool_name tool) input) ≡ has_texts input (required tool)

  -- For each of the tools that `main` describes to the model, a use of its name runs a tool exactly
  -- when the input has a text in every field that the description requires; otherwise it is answered
  -- with an error text.
  pub call_of-required : (input : Option (Json Double)) → All (Agrees input) made_tools
  unfolding made_tools call_of equal get_string_value
  call_of-required input =
      let text = λ (key : Bytes). get_text input key in
      (
        rw (shell_asks.0, shell_asks.1) (is_call-shell (text (codes "cmd"))),
        (
          rw (read_file_asks.0, read_file_asks.1) (is_call-read (text (codes "path")) _ _),
          (
            rw (edit_file_asks.0, edit_file_asks.1)
                (is_call-edit (text (codes "path")) (text (codes "old_string"))
                  (text (codes "new_string"))),
            tt,
          ),
        ),
      )
