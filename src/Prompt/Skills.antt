-- ===== src/Prompt/Skills.antt =====
-- main.c: `parse_frontmatter` and `scan_skills_dir`. The files are an interface.
pub mod Bounds
pub mod Plain
use sa.Prelude.{
  ℕ, Bool, true, false, not, ◌&&◌, ◌||◌, Option, none, some, List, [], ◌∷◌, ltb, ◌==◌,
  if◌then◌else◌, length, drop, ◌-◌, ◌++◌, leb,
}
use sa.Prelude.Bytes.{Bytes, codes, equal, c_string, starts_with}
use sa.Config.{max_skills}
use sa.Stream.State.{copy_field}
use sa.Http.Url.{strchr, before}
use sa.Prompt.Text.{is_blank, trim, append_fold, fgets_lines}

pub record Skill : Type 0 where
  pub name : Bytes
  pub description : Bytes
  pub path : Bytes

-- `S_ISREG`, `S_ISDIR`, another kind, or no answer of `stat`.
pub data Kind : Type 0 where
  regular : Kind
  directory : Kind
  other : Kind
  absent : Kind

-- The file system: the contents of a file that can be opened, `stat`, `realpath`, and the names that
-- `readdir` gives, or none where `opendir` fails.
pub record FileSystem : Type 0 where
  pub text_of : Bytes → Option Bytes
  pub stat : Bytes → Kind
  pub size : Bytes → ℕ
  pub realpath : Bytes → Option Bytes
  pub names : Bytes → Option (List Bytes)

-- The field that a key names, with the size of its array.
pub data Slot : Type 0 where
  to_name : Slot
  to_description : Slot

abbrev pub slot_size : Slot → ℕ
slot_size to_name = 128
slot_size to_description = 512

unfoldable pub slot_of : Bytes → Option Slot
slot_of key =
    if equal key (codes "name")
    then some to_name
    else if equal key (codes "description")
    then some to_description
    else none

-- The variables of the loop: `cont_target` and `cont_fold` together.
pub record Frontmatter : Type 0 where
  pub in_fm : Bool
  pub saw_header : Bool
  pub cont : Option (Slot × Bool)
  pub name : Bytes
  pub description : Bytes

abbrev pub no_frontmatter : Frontmatter
no_frontmatter = record {
  in_fm = false;
  saw_header = false;
  cont = none;
  name = [];
  description = [];
}

abbrev pub field_of : Frontmatter → Slot → Bytes
field_of m to_name = m.name
field_of m to_description = m.description

abbrev pub set_field_of : Frontmatter → Slot → Bytes → Frontmatter
set_field_of m to_name v = record m { name = v }
set_field_of m to_description v = record m { description = v }

-- A value that begins a block: folded, literal, or none.
abbrev pub is_block_end : Bytes → Bool
is_block_end [] = true
is_block_end (c ∷ s) = c == b'-' || c == b'+'

unfoldable pub block_style : Bytes → Option Bool
block_style [] = none
block_style (c ∷ s) =
    if c == b'>' && is_block_end s
    then some true
    else if c == b'|' && is_block_end s
    then some false
    else none

-- `target[0] = 0`, and what follows it.
abbrev pub assign : Frontmatter → Slot → Bytes → Option Bool → Frontmatter
assign m t val none = set_field_of m t (copy_field (slot_size t) val)
assign m t val (some fold) = record (set_field_of m t []) { cont = some (t, fold) }

abbrev pub assign_key : Frontmatter → Option Slot → Bytes → Frontmatter
assign_key m none val = m
assign_key m (some t) val = assign m t val (block_style val)

abbrev pub split_line : Frontmatter → Bytes → Option Bytes → Frontmatter
split_line m t none = m
split_line m t (some colon) = assign_key m (slot_of (trim (before t b':'))) (trim (drop 1 colon))

-- A line of a block that goes on.
abbrev pub continued : Frontmatter → Slot × Bool → Bytes → Frontmatter
continued m c t =
    if length t == 0
    then m
    else set_field_of m c.0 (append_fold (slot_size c.0) (field_of m c.0) t c.1)

abbrev pub on_text : Frontmatter → (indented : Bool) → Bytes → Option (Slot × Bool) → Frontmatter
on_text m indented t none = split_line (record m { cont = none }) t (strchr t b':')
on_text m indented t (some c) =
    if indented then continued m c t else split_line (record m { cont = none }) t (strchr t b':')

abbrev pub is_indented : Bytes → Bool
is_indented [] = false
is_indented (c ∷ s) = is_blank c

-- One round of the loop, and whether it goes on.
unfoldable pub frontmatter_line : Frontmatter → Bytes → Frontmatter × Bool
frontmatter_line m line =
    let t = trim line in
    if not m.in_fm
    then if equal t (codes "---")
      then (record m { in_fm = true; saw_header = true }, true)
      else (m, length t == 0)
    else if equal t (codes "---")
    then (m, false)
    else (on_text m (is_indented line) t m.cont, true)

unfoldable pub frontmatter_lines : Frontmatter → List Bytes → Frontmatter
frontmatter_lines m [] = m
frontmatter_lines m (l ∷ ls) =
    let next = frontmatter_line m (c_string l) in
    let rest = frontmatter_lines next.0 ls in if next.1 then rest else next.0

-- The name and the description, or none where C returns -1.
unfoldable pub parse_frontmatter : Option Bytes → Option (Bytes × Bytes)
parse_frontmatter none = none
parse_frontmatter (some content) =
    let m = frontmatter_lines no_frontmatter (fgets_lines 2048 content) in
    if m.saw_header && ltb 0 (length m.name) then some (m.name, m.description) else none

-- `snprintf(path, sizeof path, "%s/%s", dir, n)`, or none where it does not fit.
unfoldable pub join_path : Bytes → Bytes → Option Bytes
join_path dir n = let path = dir ++ b'/' ∷ n in if leb 1024 (length path) then none else some path

abbrev pub ends_with_md : Bytes → Bool
ends_with_md n = leb 4 (length n) && equal (drop (length n - 3) n) (codes ".md")

-- The file that describes a skill, by the kind of the entry.
unfoldable pub skill_source : (n path : Bytes) → Kind → Option Bytes
skill_source n path regular = if ends_with_md n then some path else none
skill_source n path directory = join_path path (codes "SKILL.md")
skill_source n path other = none
skill_source n path absent = none

abbrev pub chosen_path : (source : Bytes) → Option Bytes → Bytes
chosen_path source none = source
chosen_path source (some resolved) = resolved

module _ (fs : FileSystem) where
  abbrev pub skill_from : (source : Bytes) → Option (Bytes × Bytes) → Option Skill
  skill_from source none = none
  skill_from source (some m) = some (record {
    name = m.0;
    description = m.1;
    path = copy_field 1024 (chosen_path source (fs.realpath source));
  })

  abbrev pub skill_in : Option Bytes → Option Skill
  skill_in none = none
  skill_in (some source) = skill_from source (parse_frontmatter (fs.text_of source))

  abbrev pub skill_at : (n : Bytes) → Option Bytes → Option Skill
  skill_at n none = none
  skill_at n (some path) = skill_in (skill_source n path (fs.stat path))

  -- The skill that an entry describes.
  unfoldable pub entry_skill : (dir n : Bytes) → Option Skill
  entry_skill dir n = if starts_with (codes ".") n then none else skill_at n (join_path dir n)

  abbrev pub add_skill : List Skill → Option Skill → List Skill
  add_skill skills none = skills
  add_skill skills (some s) = skills ++ s ∷ []

  -- The loop over the entries.
  unfoldable pub scan_skills : (dir : Bytes) → List Skill → List Bytes → List Skill
  scan_skills dir skills [] = skills
  scan_skills dir skills (n ∷ ns) =
      let rest = scan_skills dir (add_skill skills (entry_skill dir n)) ns in
      if leb max_skills (length skills) then skills else rest

  abbrev pub skills_found : (dir : Bytes) → List Skill → Option (List Bytes) → List Skill
  skills_found dir skills none = skills
  skills_found dir skills (some ns) = scan_skills dir skills ns

  unfoldable pub scan_skills_dir : List Skill → (dir : Bytes) → List Skill
  scan_skills_dir skills dir = skills_found dir skills (fs.names dir)
