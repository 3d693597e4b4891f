-- ===== src/Tests/PromptTests.antt =====
-- main.c: skills, rules and escapes at concrete inputs.
use sa.Prelude.{◌≡◌, refl, true, none, some, [], ◌∷◌, arith, if◌then◌else◌}
use sa.Prelude.Bytes.{Bytes, codes, equal, starts_with, c_string}
use sa.Http.Url.Parts.{lacks}
use sa.Http.Url.{strchr, before}
use sa.Session.Store.{getlines, without_newline}
use sa.Prompt.Text.{
  skip_while, strip_while, without_last, unquote, trim, append_fold, escape_xml, fgets_from,
  fgets_lines,
}
use sa.Prompt.Text.Escape.{escape_xml_lem}
use sa.Prompt.Skills.{
  slot_of, block_style, frontmatter_line, frontmatter_lines, parse_frontmatter, ends_with_md,
  scan_skills_dir, regular, FileSystem,
}
use sa.Prompt.Skills.Bounds.{SkillsFit, scan_skills_dir-SkillsFit}
use sa.Prompt.Text.Trim.{IsPlain}
use sa.Prompt.Skills.Plain.{skill_file, parse_frontmatter_lem}
use sa.Prompt.Rules.{item_value, add_path, rule_line, rule_lines, rule_of, scan_rules_dir}
use sa.Prompt.Rules.Bounds.{RulesFit, scan_rules_dir-RulesFit}

abbrev folded_file : Bytes
folded_file = codes "---\nname: \"lint\"\ndescription: >\n  run\n  it\n---\nbody\n"

abbrev rule_file : Bytes
rule_file = codes "---\npaths:\n  - \"**/*.c\"\n---\nuse tabs\n"

-- A directory with one file of each kind.
abbrev disk : FileSystem
disk = record {
  text_of = λ p.
      if ends_with_md p
      then (if equal p (codes "s/lint.md") then some folded_file else some rule_file)
      else none;
  stat = λ p. regular;
  size = λ p. 64;
  realpath = λ p. none;
  names = λ dir. some (codes ".x" ∷ codes "lint.md" ∷ []);
}

skill_run : parse_frontmatter (some folded_file) ≡ some (codes "lint", codes "run it")
unfolding parse_frontmatter frontmatter_lines frontmatter_line fgets_lines fgets_from trim
    strip_while skip_while unquote without_last slot_of block_style append_fold equal strchr before
    c_string
skill_run = refl

rule_run : (rule_of (codes "r/c.md") rule_file).paths ≡ codes "**/*.c" ∷ []
unfolding rule_of rule_lines rule_line add_path item_value starts_with strchr getlines
    without_newline skip_while strip_while c_string
rule_run = refl

scan_skills_dir-SkillsFit_example : SkillsFit (scan_skills_dir disk [] (codes "s"))
scan_skills_dir-SkillsFit_example = scan_skills_dir-SkillsFit disk [] (codes "s") (omega arith, tt)

scan_rules_dir-RulesFit_example : RulesFit (scan_rules_dir disk [] (codes "r"))
scan_rules_dir-RulesFit_example = scan_rules_dir-RulesFit disk [] (codes "r") (omega arith, tt)

escape_xml_lem_example :
    (lacks b'<' (escape_xml (codes "<a&b>")) ≡ true)
    × (lacks b'>' (escape_xml (codes "<a&b>")) ≡ true)
    × ((t : Bytes) → escape_xml t ≡ escape_xml (codes "<a&b>") → t ≡ codes "<a&b>")
escape_xml_lem_example = escape_xml_lem (codes "<a&b>")

lint-IsPlain : IsPlain (codes "lint")
lint-IsPlain = record { begins = refl; ends = refl; one_line = refl; text = refl }

run_it-IsPlain : IsPlain (codes "run: \"it\" now")
run_it-IsPlain = record { begins = refl; ends = refl; one_line = refl; text = refl }

parse_frontmatter_lem_example :
    parse_frontmatter (some (skill_file (codes "lint") (codes "run: \"it\" now") (codes "body\n")))
    ≡ some (codes "lint", codes "run: \"it\" now")
parse_frontmatter_lem_example =
    parse_frontmatter_lem (codes "lint") (codes "run: \"it\" now") (codes "body\n") lint-IsPlain
      run_it-IsPlain (omega arith) (omega arith)
