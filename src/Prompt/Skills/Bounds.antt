-- ===== src/Prompt/Skills/Bounds.antt =====
-- main.c: the sizes of the fields of a skill, and the number of skills.
use sa.Prelude.{
  ℕ, ◌-◌, ◌<◌, Bool, Option, none, some, [], arith, length, length-take, not, List, ◌∷◌, ◌==◌,
  if-split, length-append, ◌+◌, ◌++◌, leb, if◌then◌else◌, take, ◌≤◌, ◌&&◌, ltb, All, All-append,
}
use sa.Prelude.Bytes.{Bytes, codes, equal, c_string, starts_with}
use sa.Config.{max_skills}
use sa.Http.Url.{strchr}
use sa.Prompt.Text.{fgets_lines}
use sa.Stream.State.{copy_field}
use sa.Prompt.Text.{append_fold, trim}
use sa.Prompt.Skills.{
  slot_size, field_of, set_field_of, block_style, Slot, to_name, to_description, Frontmatter,
  assign, assign_key, split_line, continued, on_text, is_indented, frontmatter_line,
  frontmatter_lines, no_frontmatter, parse_frontmatter, join_path, skill_source, skill_from,
  skill_in, skill_at, entry_skill, add_skill, scan_skills, scan_skills_dir, Skill, FileSystem,
  skills_found,
}

length-append_fold :
    (size : ℕ) (dst s : Bytes) (fold : Bool)
    → length dst < size
    → length (append_fold size dst s fold) < size
unfolding append_fold
length-append_fold size dst s fold h =
    let c = if fold then b' ' else b'\n' in
    let joined = dst ++ c ∷ [] in
    let n = size - length joined - 1 in
    let fits = λ (b : Bytes). length b < size in
    if-split fits (leb size (length dst + 1)) (λ _. h)
      (λ room.
        if-split fits (length dst == 0) (λ _. omega (arith, length-take (size - 1) s, h))
          (λ _.
            if-split fits (leb size (length dst + 2)) (λ _. h)
              (λ more. ground (
                arith,
                length-append dst (c ∷ []),
                length-append joined (take n s),
                length-take n s,
              ))))

abbrev pub IsNoneOr : {A : Type 0} → (A → Type 0) → Option A → Type 0
IsNoneOr P none = Unit
IsNoneOr P (some a) = P a

-- The texts fit in the arrays of `skill_t`.
abbrev pub SkillFits : Skill → Type 0
SkillFits s = (length s.name < 128) × (length s.description < 512) × (length s.path < 1024)

abbrev pub SkillsFit : List Skill → Type 0
SkillsFit skills = (length skills ≤ max_skills) × All SkillFits skills

-- Both fields fit.
abbrev pub FieldsFit : Frontmatter → Type 0
FieldsFit m = (length m.name < 128) × (length m.description < 512)

FieldsFit-set :
    (m : Frontmatter) (t : Slot) (v : Bytes)
    → FieldsFit m
    → length v < slot_size t
    → FieldsFit (set_field_of m t v)
FieldsFit-set m to_name v h k = (k, h.1)
FieldsFit-set m to_description v h k = (h.0, k)

length-field_of : (m : Frontmatter) (t : Slot) → FieldsFit m → length (field_of m t) < slot_size t
length-field_of m to_name h = h.0
length-field_of m to_description h = h.1

pub length-copy_field : (size : ℕ) (s : Bytes) → 0 < size → length (copy_field size s) < size
length-copy_field size s h = omega (arith, length-take (size - 1) s)

slot_size_pos : (t : Slot) → 0 < slot_size t
slot_size_pos to_name = omega arith
slot_size_pos to_description = omega arith

assign-FieldsFit :
    (m : Frontmatter) (t : Slot) (v : Bytes) (style : Option Bool)
    → FieldsFit m
    → FieldsFit (assign m t v style)
assign-FieldsFit m t v none h =
    FieldsFit-set m t _ h (length-copy_field (slot_size t) v (slot_size_pos t))
assign-FieldsFit m t v (some fold) h = FieldsFit-set m t [] h (slot_size_pos t)

assign_key-FieldsFit :
    (m : Frontmatter) (t : Option Slot) (v : Bytes) → FieldsFit m → FieldsFit (assign_key m t v)
assign_key-FieldsFit m none v h = h
assign_key-FieldsFit m (some t) v h = assign-FieldsFit m t v (block_style v) h

split_line-FieldsFit :
    (m : Frontmatter) (t : Bytes) (colon : Option Bytes)
    → FieldsFit m
    → FieldsFit (split_line m t colon)
split_line-FieldsFit m t none h = h
split_line-FieldsFit m t (some colon) h = assign_key-FieldsFit m _ _ h

continued-FieldsFit :
    (m : Frontmatter) (c : Slot × Bool) (t : Bytes) → FieldsFit m → FieldsFit (continued m c t)
continued-FieldsFit m c t h =
    if-split FieldsFit (length t == 0) (λ _. h)
      (λ _.
        FieldsFit-set m c.0 _ h
          (length-append_fold (slot_size c.0) (field_of m c.0) t c.1 (length-field_of m c.0 h)))

on_text-FieldsFit :
    (m : Frontmatter) (indented : Bool) (t : Bytes) (c : Option (Slot × Bool))
    → FieldsFit m
    → FieldsFit (on_text m indented t c)
on_text-FieldsFit m indented t none h = split_line-FieldsFit _ t (strchr t b':') h
on_text-FieldsFit m indented t (some c) h =
    if-split FieldsFit indented (λ _. continued-FieldsFit m c t h)
      (λ _. split_line-FieldsFit _ t (strchr t b':') h)

frontmatter_line-FieldsFit :
    (m : Frontmatter) (line : Bytes) → FieldsFit m → FieldsFit (frontmatter_line m line).0
unfolding frontmatter_line
frontmatter_line-FieldsFit m line h =
    let P : Frontmatter × Bool → Type 0 = λ r. FieldsFit r.0 in
    let t = trim line in
    if-split P (not m.in_fm) (λ _. if-split P (equal t (codes "---")) (λ _. h) (λ _. h))
      (λ _.
        if-split P (equal t (codes "---")) (λ _. h)
          (λ _. on_text-FieldsFit m (is_indented line) t m.cont h))

frontmatter_lines-FieldsFit :
    (m : Frontmatter) (ls : List Bytes) → FieldsFit m → FieldsFit (frontmatter_lines m ls)
unfolding frontmatter_lines
frontmatter_lines-FieldsFit m [] h = h
frontmatter_lines-FieldsFit m (l ∷ ls) h =
    let k = frontmatter_line-FieldsFit m (c_string l) h in
    if-split FieldsFit (frontmatter_line m (c_string l)).1
      (λ _. frontmatter_lines-FieldsFit (frontmatter_line m (c_string l)).0 ls k) (λ _. k)

parse_frontmatter-Fits :
    (content : Option Bytes)
    → IsNoneOr (λ v. (length v.0 < 128) × (length v.1 < 512)) (parse_frontmatter content)
unfolding parse_frontmatter
parse_frontmatter-Fits none = tt
parse_frontmatter-Fits (some content) =
    let ls = fgets_lines 2048 content in
    let m = frontmatter_lines no_frontmatter ls in
    if-split (IsNoneOr _) (m.saw_header && ltb 0 (length m.name))
      (λ _. frontmatter_lines-FieldsFit no_frontmatter ls (omega arith, omega arith)) (λ _. tt)

module _ (fs : FileSystem) where
  skill_from-SkillFits :
      (source : Bytes) (v : Option (Bytes × Bytes))
      → IsNoneOr (λ v. (length v.0 < 128) × (length v.1 < 512)) v
      → IsNoneOr SkillFits (skill_from fs source v)
  skill_from-SkillFits source none h = tt
  skill_from-SkillFits source (some v) h = (h.0, h.1, length-copy_field 1024 _ (omega arith))

  skill_in-SkillFits : (o : Option Bytes) → IsNoneOr SkillFits (skill_in fs o)
  skill_in-SkillFits none = tt
  skill_in-SkillFits (some source) =
      skill_from-SkillFits source (parse_frontmatter (fs.text_of source))
        (parse_frontmatter-Fits (fs.text_of source))

  skill_at-SkillFits : (n : Bytes) (o : Option Bytes) → IsNoneOr SkillFits (skill_at fs n o)
  skill_at-SkillFits n none = tt
  skill_at-SkillFits n (some path) = skill_in-SkillFits (skill_source n path (fs.stat path))

  entry_skill-SkillFits : (dir n : Bytes) → IsNoneOr SkillFits (entry_skill fs dir n)
  unfolding entry_skill
  entry_skill-SkillFits dir n =
      if-split (IsNoneOr SkillFits) (starts_with (codes ".") n) (λ _. tt)
        (λ _. skill_at-SkillFits n (join_path dir n))

  add_skill-SkillsFit :
      (skills : List Skill) (o : Option Skill)
      → length skills < max_skills
      → All SkillFits skills
      → IsNoneOr SkillFits o
      → SkillsFit (add_skill fs skills o)
  add_skill-SkillsFit skills none less h k = (omega (arith, less), h)
  add_skill-SkillsFit skills (some s) less h k = (
    omega (arith, less, length-append skills (s ∷ [])),
    All-append SkillFits skills (s ∷ []) h (k, tt),
  )

  scan_skills-SkillsFit :
      (dir : Bytes) (skills : List Skill) (ns : List Bytes)
      → SkillsFit skills
      → SkillsFit (scan_skills fs dir skills ns)
  unfolding scan_skills
  scan_skills-SkillsFit dir skills [] h = h
  scan_skills-SkillsFit dir skills (n ∷ ns) h =
      if-split SkillsFit (leb max_skills (length skills)) (λ _. h)
        (λ less. scan_skills-SkillsFit dir (add_skill fs skills (entry_skill fs dir n)) ns (
          add_skill-SkillsFit skills (entry_skill fs dir n) (ground (arith, less)) h.1
            (entry_skill-SkillFits dir n)))

  found-SkillsFit :
      (dir : Bytes) (skills : List Skill) (o : Option (List Bytes))
      → SkillsFit skills
      → SkillsFit (skills_found fs dir skills o)
  found-SkillsFit dir skills none h = h
  found-SkillsFit dir skills (some ns) h = scan_skills-SkillsFit dir skills ns h

-- Whatever the directory and its files hold, the scan leaves at most `max_skills` skills, and each
-- one's name, description and path fit in the 128, 512 and 1024 bytes of their arrays with the zero
-- byte behind them, where this held of the skills before the scan.
pub scan_skills_dir-SkillsFit :
    (fs : FileSystem) (skills : List Skill) (dir : Bytes)
    → SkillsFit skills
    → SkillsFit (scan_skills_dir fs skills dir)
unfolding scan_skills_dir
scan_skills_dir-SkillsFit fs skills dir h = found-SkillsFit fs dir skills (fs.names dir) h
