-- ===== src/Prompt/Rules/Bounds.antt =====
-- main.c: the sizes of the fields of a rule, and the number of rules.
use sa.Prelude.{
  ◌*◌, ◌≤◌, ◌<◌, not, ◌&&◌, Option, none, some, List, [], ◌∷◌, arith, ltb, leb, ◌==◌, &&-true,
  if-split, length, take, All, length-append, length-take, All-append,
}
use sa.Prelude.Bytes.{Bytes, codes, starts_with, c_string}
use sa.Config.{max_rules, max_rule_paths}
use sa.Session.Store.{without_newline}
use sa.Http.Url.{strchr}
use sa.Prompt.Text.{is_blank, skip_while}
use sa.Prompt.Skills.{is_indented, join_path, ends_with_md, FileSystem}
use sa.Prompt.Skills.Bounds.{IsNoneOr, length-copy_field}
use sa.Prompt.Rules.{
  no_paths, item_value, add_path, item_line, rule_line, rule_lines, lines_behind, rule_of, rule_in,
  parse_rule, is_regular, rule_at, entry_rule, add_rule, scan_rules, scan_rules_dir, Rule, PathList,
  rules_found,
}

-- A pattern fits in its array of 256 bytes.
abbrev PathFits : Bytes → Type 0
PathFits p = (0 < length p) × (length p < 256)

abbrev PathsFit : List Bytes → Type 0
PathsFit ps = (length ps ≤ max_rule_paths) × All PathFits ps

-- The texts fit in the arrays of `rule_t`.
abbrev pub RuleFits : Rule → Type 0
RuleFits r = (length r.path < 1024) × PathsFit r.paths

abbrev pub RulesFit : List Rule → Type 0
RulesFit rules = (length rules ≤ max_rules) × All RuleFits rules

add_path-PathsFit : (ps : List Bytes) (v : Bytes) → PathsFit ps → PathsFit (add_path ps v)
unfolding add_path
add_path-PathsFit ps v h =
    if-split PathsFit (ltb 0 (length v) && ltb (length ps) max_rule_paths)
      (λ t.
        let both = &&-true (ltb 0 (length v)) (ltb (length ps) max_rule_paths) t in
        (
          ground (arith, both.1, length-append ps (take 255 v ∷ [])),
          All-append PathFits ps (take 255 v ∷ []) h.1
              ((ground (arith, both.0, length-take 255 v), ground (arith, length-take 255 v)), tt),
        ))
      (λ _. h)

item_line-PathsFit : (l : PathList) (t : Bytes) → PathsFit l.paths → PathsFit (item_line l t).paths
item_line-PathsFit l [] h = h
item_line-PathsFit l (c ∷ s) h =
    if-split (λ (m : PathList). PathsFit m.paths) (c == b'-')
      (λ _. add_path-PathsFit l.paths (item_value s) h) (λ _. h)

rule_line-PathsFit : (l : PathList) (t : Bytes) → PathsFit l.paths → PathsFit (rule_line l t).paths
unfolding rule_line
rule_line-PathsFit l t h =
    let P = λ (m : PathList). PathsFit m.paths in
    if-split P (not (is_indented t)) (λ _. h)
      (λ _. if-split P l.in_paths (λ _. item_line-PathsFit l (skip_while is_blank t) h) (λ _. h))

rule_lines-PathsFit :
    (l : PathList) (ts : List Bytes) → PathsFit l.paths → PathsFit (rule_lines l ts).paths
unfolding rule_lines
rule_lines-PathsFit l [] h = h
rule_lines-PathsFit l (line ∷ ts) h =
    let t = without_newline line in
    if-split (λ (m : PathList). PathsFit m.paths) (starts_with (codes "---") t) (λ _. h)
      (λ _. rule_lines-PathsFit (rule_line l t) ts (rule_line-PathsFit l t h))

rule_of-RuleFits : (path content : Bytes) → RuleFits (rule_of path content)
unfolding rule_of
rule_of-RuleFits path content =
    let text = c_string content in
    (
      length-copy_field 1024 path (omega arith),
      if-split PathsFit (starts_with (codes "---") text)
          (λ _. rule_lines-PathsFit no_paths (lines_behind (strchr text b'\n')) (omega arith, tt))
          (λ _. (omega arith, tt)),
    )

module _ (fs : FileSystem) where
  rule_in-RuleFits : (path : Bytes) (o : Option Bytes) → IsNoneOr RuleFits (rule_in fs path o)
  rule_in-RuleFits path none = tt
  rule_in-RuleFits path (some content) = rule_of-RuleFits path content

  parse_rule-RuleFits : (path : Bytes) → IsNoneOr RuleFits (parse_rule fs path)
  unfolding parse_rule
  parse_rule-RuleFits path = rule_in-RuleFits path (fs.text_of path)

  rule_at-RuleFits : (o : Option Bytes) → IsNoneOr RuleFits (rule_at fs o)
  rule_at-RuleFits none = tt
  rule_at-RuleFits (some path) =
      if-split (IsNoneOr RuleFits) (not (is_regular fs (fs.stat path))) (λ _. tt)
        (λ _.
          if-split (IsNoneOr RuleFits) (ltb (64 * 1024) (fs.size path)) (λ _. tt)
            (λ _. parse_rule-RuleFits path))

  entry_rule-RuleFits : (dir n : Bytes) → IsNoneOr RuleFits (entry_rule fs dir n)
  unfolding entry_rule
  entry_rule-RuleFits dir n =
      if-split (IsNoneOr RuleFits) (starts_with (codes ".") n) (λ _. tt)
        (λ _.
          if-split (IsNoneOr RuleFits) (not (ends_with_md n)) (λ _. tt)
            (λ _. rule_at-RuleFits (join_path dir n)))

  add_rule-RulesFit :
      (rules : List Rule) (o : Option Rule)
      → length rules < max_rules
      → All RuleFits rules
      → IsNoneOr RuleFits o
      → RulesFit (add_rule fs rules o)
  add_rule-RulesFit rules none less h k = (omega (arith, less), h)
  add_rule-RulesFit rules (some r) less h k = (
    omega (arith, less, length-append rules (r ∷ [])),
    All-append RuleFits rules (r ∷ []) h (k, tt),
  )

  scan_rules-RulesFit :
      (dir : Bytes) (rules : List Rule) (ns : List Bytes)
      → RulesFit rules
      → RulesFit (scan_rules fs dir rules ns)
  unfolding scan_rules
  scan_rules-RulesFit dir rules [] h = h
  scan_rules-RulesFit dir rules (n ∷ ns) h =
      if-split RulesFit (leb max_rules (length rules)) (λ _. h)
        (λ less. scan_rules-RulesFit dir (add_rule fs rules (entry_rule fs dir n)) ns (
          add_rule-RulesFit rules (entry_rule fs dir n) (ground (arith, less)) h.1
            (entry_rule-RuleFits dir n)))

  found-RulesFit :
      (dir : Bytes) (rules : List Rule) (o : Option (List Bytes))
      → RulesFit rules
      → RulesFit (rules_found fs dir rules o)
  found-RulesFit dir rules none h = h
  found-RulesFit dir rules (some ns) h = scan_rules-RulesFit dir rules ns h

-- Whatever the directory and its files hold, the scan leaves at most `max_rules` rules, each with at
-- most `max_rule_paths` patterns, none of them empty, which fit in their arrays as the path does,
-- where this held of the rules before the scan.
pub scan_rules_dir-RulesFit :
    (fs : FileSystem) (rules : List Rule) (dir : Bytes)
    → RulesFit rules
    → RulesFit (scan_rules_dir fs rules dir)
unfolding scan_rules_dir
scan_rules_dir-RulesFit fs rules dir h = found-RulesFit fs dir rules (fs.names dir) h
