-- ===== src/Prompt/Rules.antt =====
-- main.c: `parse_rule`, `rule_applies` and `scan_rules_dir`.
pub mod Bounds
use sa.Prelude.{
  ℕ, ◌*◌, Bool, true, false, not, ◌&&◌, ◌||◌, Option, none, some, List, [], ◌∷◌, ◌++◌, ltb, leb,
  ◌==◌, if◌then◌else◌, length, take, drop,
}
use sa.Prelude.Bytes.{Bytes, codes, starts_with, c_string}
use sa.Config.{max_rules, max_rule_paths}
use sa.Stream.State.{copy_field}
use sa.Session.Store.{getlines, without_newline}
use sa.Tools.Write.{print_into}
use sa.Http.Url.{strchr}
use sa.Prompt.Text.{is_blank, skip_while, strip_while}
use sa.Prompt.Skills.{is_indented, join_path, ends_with_md, Kind, regular, FileSystem}

-- `path_count` is the length of `paths`.
pub record Rule : Type 0 where
  pub path : Bytes
  pub paths : List Bytes
  pub content : Bytes

-- The variables of the loop over the lines.
pub record PathList : Type 0 where
  pub in_paths : Bool
  pub paths : List Bytes

abbrev pub no_paths : PathList
no_paths = record { in_paths = false; paths = [] }

abbrev is_item_blank : ℕ → Bool
is_item_blank c = c == b' ' || c == b'"' || c == 39

abbrev is_item_end : ℕ → Bool
is_item_end c = c == b' ' || c == b'\r' || c == b'"' || c == 39

-- The value behind the dash of a list item, without the blanks and quotes around it.
unfoldable pub item_value : Bytes → Bytes
item_value s = strip_while is_item_end (skip_while is_item_blank s)

unfoldable pub add_path : List Bytes → Bytes → List Bytes
add_path paths v =
    if ltb 0 (length v) && ltb (length paths) max_rule_paths
    then paths ++ take 255 v ∷ []
    else paths

abbrev pub item_line : PathList → Bytes → PathList
item_line l [] = l
item_line l (c ∷ s) = if c == b'-' then record l { paths = add_path l.paths (item_value s) } else l

-- One round of the loop, on a line that does not end the front matter.
unfoldable pub rule_line : PathList → Bytes → PathList
rule_line l line =
    if not (is_indented line)
    then record l { in_paths = starts_with (codes "paths:") line }
    else if l.in_paths
    then item_line l (skip_while is_blank line)
    else l

unfoldable pub rule_lines : PathList → List Bytes → PathList
rule_lines l [] = l
rule_lines l (line ∷ lines) =
    let t = without_newline line in
    let rest = rule_lines (rule_line l t) lines in if starts_with (codes "---") t then l else rest

abbrev pub lines_behind : Option Bytes → List Bytes
lines_behind none = []
lines_behind (some newline) = getlines (drop 1 newline)

-- What `parse_rule` makes of the text of a file.
unfoldable pub rule_of : (path content : Bytes) → Rule
rule_of path content =
    let text = c_string content in
    record {
      path = copy_field 1024 path;
      paths =
          if starts_with (codes "---") text
          then (rule_lines no_paths (lines_behind (strchr text b'\n'))).paths
          else [];
      content = text;
    }

abbrev without_globstar : Bytes → Bytes
without_globstar g = if starts_with (codes "**/") g then drop 3 g else g

-- The command that looks for a file by its name.
unfoldable pub find_command : Bytes → Bytes
find_command g = print_into 1024 (
    codes "find . -type f -name '"
    ++ (without_globstar g ++ codes "' -not -path '*/.git/*' -print -quit 2>/dev/null"))

-- `prints` says whether a command can be run and prints something.
abbrev pub any_found : (prints : Bytes → Bool) → List Bytes → Bool
any_found prints [] = false
any_found prints (g ∷ gs) = prints (find_command g) || any_found prints gs

unfoldable pub rule_applies : (prints : Bytes → Bool) → Rule → Bool
rule_applies prints r = if length r.paths == 0 then true else any_found prints r.paths

module _ (fs : FileSystem) where
  abbrev pub rule_in : (path : Bytes) → Option Bytes → Option Rule
  rule_in path none = none
  rule_in path (some content) = some (rule_of path content)

  -- `parse_rule`; none where the file cannot be opened.
  unfoldable pub parse_rule : (path : Bytes) → Option Rule
  parse_rule path = rule_in path (fs.text_of path)

  abbrev pub is_regular : Kind → Bool
  is_regular regular = true
  is_regular _ = false

  abbrev pub rule_at : Option Bytes → Option Rule
  rule_at none = none
  rule_at (some path) =
      if not (is_regular (fs.stat path))
      then none
      else if ltb (64 * 1024) (fs.size path)
      then none
      else parse_rule path

  unfoldable pub entry_rule : (dir n : Bytes) → Option Rule
  entry_rule dir n =
      if starts_with (codes ".") n
      then none
      else if not (ends_with_md n)
      then none
      else rule_at (join_path dir n)

  abbrev pub add_rule : List Rule → Option Rule → List Rule
  add_rule rules none = rules
  add_rule rules (some r) = rules ++ r ∷ []

  unfoldable pub scan_rules : (dir : Bytes) → List Rule → List Bytes → List Rule
  scan_rules dir rules [] = rules
  scan_rules dir rules (n ∷ ns) =
      let rest = scan_rules dir (add_rule rules (entry_rule dir n)) ns in
      if leb max_rules (length rules) then rules else rest

  abbrev pub rules_found : (dir : Bytes) → List Rule → Option (List Bytes) → List Rule
  rules_found dir rules none = rules
  rules_found dir rules (some ns) = scan_rules dir rules ns

  unfoldable pub scan_rules_dir : List Rule → (dir : Bytes) → List Rule
  scan_rules_dir rules dir = rules_found dir rules (fs.names dir)
