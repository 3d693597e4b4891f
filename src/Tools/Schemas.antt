-- ===== src/Tools/Schemas.antt =====
-- main.c: the descriptions of the tools. `tool_props` and `tool_schema` give a pointer into the
-- tool: what is done through it is an update of the field.
use sa.Prelude.{Option, none, some, List, [], ◌∷◌, if◌then◌else◌}
use sa.Prelude.Bytes.{Bytes, codes, equal}
use sa.Json.Value.{
  add_item_to_array, add_item_to_object, add_string_to_object, Json, string, array, object,
  no_items, Fields, no_fields, field,
}
use sa.Json.Access.{get_object_item}

module _ {D : Type 0} where
  -- The update of the first field with that key.
  unfoldable pub update_field : Fields D → Bytes → (Json D → Json D) → Fields D
  update_field no_fields k f = no_fields
  update_field (field j v fs) k f =
      if equal j k then field j (f v) fs else field j v (update_field fs k f)

  -- What is done to `cJSON_GetObjectItem(v, key)`, where there is one.
  unfoldable pub at_object_item : Json D → Bytes → (Json D → Json D) → Json D
  at_object_item (object fs) k f = object (update_field fs k f)
  at_object_item v k f = v

  unfoldable pub at_tool_schema : Json D → (Json D → Json D) → Json D
  at_tool_schema tool f = at_object_item tool (codes "input_schema") f

  unfoldable pub at_tool_props : Json D → (Json D → Json D) → Json D
  at_tool_props tool f =
      at_tool_schema tool (λ schema. at_object_item schema (codes "properties") f)

  unfoldable pub add_prop : (name type : Bytes) → Json D → Json D
  add_prop name type props =
      add_item_to_object props name (add_string_to_object (object no_fields) (codes "type") type)

  abbrev required_of : Json D → Option (Json D) → Json D
  required_of schema none = add_item_to_object schema (codes "required") (array no_items)
  required_of schema (some a) = schema

  unfoldable pub add_required : (name : Bytes) → Json D → Json D
  add_required name schema =
      at_object_item (required_of schema (get_object_item (some schema) (codes "required")))
        (codes "required") (λ a. add_item_to_array a (string name))

  unfoldable pub make_tool : (name description : Bytes) → Json D
  make_tool name description =
      let named = add_string_to_object (object no_fields) (codes "name") name in
      let described = add_string_to_object named (codes "description") description in
      let schema = add_string_to_object (object no_fields) (codes "type") (codes "object") in
      add_item_to_object described (codes "input_schema")
        (add_item_to_object schema (codes "properties") (object no_fields))

  unfoldable pub make_shell_tool : Json D
  make_shell_tool =
      let t = make_tool (codes "shell") (
        codes
          "Run a shell command via /bin/sh -c. Returns combined stdout+stderr and exit code.") in
      let equipped = at_tool_props t (add_prop (codes "cmd") (codes "string")) in
      at_tool_schema equipped (add_required (codes "cmd"))

  unfoldable pub make_read_file_tool : Json D
  make_read_file_tool =
      let t = make_tool (codes "read_file") (
        codes
          "Read a text file. Returns up to 'limit' lines starting from 'offset' (1-indexed), each prefixed with line number + tab. Default limit 2000. Hard cap 256KB. For larger files, page through with offset.") in
      let located = at_tool_props t (add_prop (codes "path") (codes "string")) in
      let started = at_tool_props located (add_prop (codes "offset") (codes "integer")) in
      let bounded = at_tool_props started (add_prop (codes "limit") (codes "integer")) in
      at_tool_schema bounded (add_required (codes "path"))

  unfoldable pub make_edit_file_tool : Json D
  make_edit_file_tool =
      let t = make_tool (codes "edit_file") (
        codes
          "Edit a file. If 'old_string' is empty, write 'new_string' as the full file contents (creates or overwrites). Otherwise, 'old_string' must appear exactly once in the file and will be replaced with 'new_string'. Errors on 0 or >1 matches. Atomic via .tmp + rename. File size cap 4 MB.") in
      let located = at_tool_props t (add_prop (codes "path") (codes "string")) in
      let olded = at_tool_props located (add_prop (codes "old_string") (codes "string")) in
      let newed = at_tool_props olded (add_prop (codes "new_string") (codes "string")) in
      let required_path = at_tool_schema newed (add_required (codes "path")) in
      let required_old = at_tool_schema required_path (add_required (codes "old_string")) in
      at_tool_schema required_old (add_required (codes "new_string"))

  -- The tools that `main` makes.
  unfoldable pub made_tools : List (Json D)
  made_tools = make_shell_tool ∷ make_read_file_tool ∷ make_edit_file_tool ∷ []
