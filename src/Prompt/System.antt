-- ===== src/Prompt/System.antt =====
-- main.c: `build_system_prompt` and `append_claude_md`. What each appends to the buffer is a text.
use sa.Prelude.{Bool, Option, none, some, List, [], ◌∷◌, ◌++◌, leb, if◌then◌else◌, length}
use sa.Prelude.Bytes.{Bytes, codes, c_string}
use sa.Config.{base_system}
use sa.Prompt.Text.{escape_xml}
use sa.Prompt.Skills.{Skill, FileSystem}
use sa.Prompt.Rules.{rule_applies, Rule}

-- A file's contents, raw, under a title, or nothing where it cannot be opened.
unfoldable pub append_claude_md : FileSystem → (path label : Bytes) → Bytes
append_claude_md fs path label = elim (fs.text_of path) [
  | none ↦ []
  | some content ↦
      codes "\n\nContents of " ++ (path ++ (codes " (" ++ (label ++ (codes "):\n\n" ++ content))))
]

abbrev home_instructions : FileSystem → Option Bytes → Bytes
home_instructions fs none = []
home_instructions fs (some home) =
    let p = home ++ codes "/.claude/CLAUDE.md" in
    if leb 1024 (length p)
    then []
    else append_claude_md fs p (codes "user's private global instructions for all projects")

unfoldable pub rule_text : Rule → Bytes
rule_text r = codes "\n\nContents of " ++ (r.path ++ (codes " (rule):\n\n" ++ c_string r.content))

-- The loop over the rules.
unfoldable pub rules_text : (prints : Bytes → Bool) → List Rule → Bytes
rules_text prints [] = []
rules_text prints (r ∷ rs) =
    let rest = rules_text prints rs in if rule_applies prints r then rule_text r ++ rest else rest

unfoldable pub skill_text : Skill → Bytes
skill_text s =
    codes "  <skill>\n    <name>"
    ++ (escape_xml s.name
        ++ (codes "</name>\n    <description>"
            ++ (escape_xml s.description
                ++ (codes "</description>\n    <path>"
                    ++ (escape_xml s.path ++ codes "</path>\n  </skill>\n")))))

-- The loop over the skills.
unfoldable pub skills_text : List Skill → Bytes
skills_text [] = []
skills_text (s ∷ ss) = skill_text s ++ skills_text ss

abbrev pub skill_hint : Bytes
skill_hint =
    codes
      "\n\nTo use a skill, first read its SKILL.md (via `cat <path>`) to learn its instructions, then follow them. The path is a markdown file, not an executable."

abbrev skills_section : List Skill → Bytes
skills_section [] = []
skills_section (s ∷ ss) =
    skill_hint ++ (codes "\n\n<skills>\n" ++ (skills_text (s ∷ ss) ++ codes "</skills>"))

-- `home` is `getenv("HOME")`.
unfoldable pub build_system_prompt :
    FileSystem → (prints : Bytes → Bool) → (home : Option Bytes) → List Rule → List Skill → Bytes
build_system_prompt fs prints home rules skills =
    base_system
    ++ (home_instructions fs home
        ++ (append_claude_md fs (codes "./CLAUDE.md") (codes "project instructions")
            ++ (rules_text prints rules ++ skills_section skills)))
