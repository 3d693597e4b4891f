-- ===== src/Prompt/Skills/Plain.antt =====
-- main.c: `parse_frontmatter` on a name and a description that stand on a line each.
use sa.Prelude.{
  ◌≤◌, ◌≡◌, refl, true, false, not, [], ◌∷◌, ◌++◌, arith, ◌==◌, length, ap, ◌∙◌, none, List, some,
  every-append, ltb, length-take,
}
use sa.Prelude.Bytes.{Bytes, is_text, codes, equal, c_string, c_string-is_text}
use sa.Http.Url.{strchr, before}
use sa.Stream.State.{copy_field}
use sa.Prompt.Text.{skip_while, strip_while, unquote, trim, fgets_lines}
use sa.Prompt.Text.Trim.{trim_line, first_is_plain, trim_value, IsPlain}
use sa.Prompt.Text.Lines.{fgets_lines-line}
use sa.Prompt.Skills.{
  slot_of, no_frontmatter, block_style, frontmatter_line, frontmatter_lines, Frontmatter, slot_size,
  set_field_of, Slot, to_name, to_description, parse_frontmatter,
}

block_style-none : (v : Bytes) → IsPlain v → block_style v ≡ none
unfolding block_style
block_style-none [] h = refl
block_style-none (c ∷ s) h = let first = first_is_plain c s h.begins in rw (first.2, first.3) refl

-- A round that goes on, and the last.
lines_on :
    (m next : Frontmatter) (l : Bytes) (ls : List Bytes)
    → frontmatter_line m (c_string l) ≡ (next, true)
    → frontmatter_lines m (l ∷ ls) ≡ frontmatter_lines next ls
unfolding frontmatter_lines
lines_on m next l ls h = rw h refl

lines_end :
    (m next : Frontmatter) (l : Bytes) (ls : List Bytes)
    → frontmatter_line m (c_string l) ≡ (next, false)
    → frontmatter_lines m (l ∷ ls) ≡ next
unfolding frontmatter_lines
lines_end m next l ls h = rw h refl

-- Inside the front matter.
abbrev inside : (name description : Bytes) → Frontmatter
inside name description = record no_frontmatter {
  in_fm = true;
  saw_header = true;
  name = name;
  description = description;
}

-- A line of a key and a plain value.
key_line :
    (name description line t v : Bytes) (slot : Slot)
    → trim line ≡ t
    → equal t (codes "---") ≡ false
    → strchr t b':' ≡ some (b':' ∷ b' ' ∷ v)
    → slot_of (trim (before t b':')) ≡ some slot
    → IsPlain v
    → frontmatter_line (inside name description) line
      ≡ (set_field_of (inside name description) slot (copy_field (slot_size slot) v), true)
unfolding frontmatter_line
key_line name description line t v slot trimmed no_end colon key h =
    rw (trimmed, no_end, colon, key, trim_value v h, block_style-none v h) refl

name_line :
    (v : Bytes)
    → IsPlain v
    → frontmatter_line (inside [] []) (codes "name: " ++ (v ++ b'\n' ∷ []))
      ≡ (inside (copy_field 128 v) [], true)
unfolding equal strchr before slot_of trim strip_while skip_while unquote
name_line v h =
    key_line [] [] (codes "name: " ++ (v ++ b'\n' ∷ [])) (codes "name: " ++ v) v to_name
      (trim_line b'n' (codes "ame: ") v refl refl h.ends) refl refl refl h

description_line :
    (name v : Bytes)
    → IsPlain v
    → frontmatter_line (inside name []) (codes "description: " ++ (v ++ b'\n' ∷ []))
      ≡ (inside name (copy_field 512 v), true)
unfolding equal strchr before slot_of trim strip_while skip_while unquote
description_line name v h =
    key_line name [] (codes "description: " ++ (v ++ b'\n' ∷ [])) (codes "description: " ++ v) v
      to_description (trim_line b'd' (codes "escription: ") v refl refl h.ends) refl refl refl h

c_string-line :
    (u v : Bytes)
    → is_text u ≡ true
    → is_text v ≡ true
    → c_string (u ++ (v ++ b'\n' ∷ [])) ≡ u ++ (v ++ b'\n' ∷ [])
c_string-line u v h k = c_string-is_text (u ++ (v ++ b'\n' ∷ [])) (
    every-append (λ c. not (c == 0)) u (v ++ b'\n' ∷ [])
    ∙ rw (h, every-append (λ c. not (c == 0)) v (b'\n' ∷ []), k) refl)

-- A file that names a skill and describes it, with anything behind.
abbrev pub skill_file : (v w body : Bytes) → Bytes
skill_file v w body =
    codes "---"
    ++ b'\n'
      ∷ ((codes "name: " ++ v)
          ++ b'\n' ∷ ((codes "description: " ++ w) ++ b'\n' ∷ (codes "---" ++ b'\n' ∷ body)))

skill_file-lines :
    (v w body : Bytes)
    → IsPlain v
    → IsPlain w
    → length v ≤ 2040
    → length w ≤ 2033
    → fgets_lines 2048 (skill_file v w body)
      ≡ codes "---\n"
        ∷ (codes "name: " ++ (v ++ b'\n' ∷ []))
        ∷ (codes "description: " ++ (w ++ b'\n' ∷ []))
        ∷ codes "---\n"
        ∷ fgets_lines 2048 body
skill_file-lines v w body hv hw kv kw =
    rw
      (
        fgets_lines-line (codes "---")
            ((codes "name: " ++ v)
              ++ b'\n' ∷ ((codes "description: " ++ w) ++ b'\n' ∷ (codes "---" ++ b'\n' ∷ body)))
            refl (omega arith),
        fgets_lines-line (codes "name: " ++ v)
            ((codes "description: " ++ w) ++ b'\n' ∷ (codes "---" ++ b'\n' ∷ body)) hv.one_line
            (omega (arith, kv)),
        fgets_lines-line (codes "description: " ++ w) (codes "---" ++ b'\n' ∷ body) hw.one_line
            (omega (arith, kw)),
        fgets_lines-line (codes "---") body refl (omega arith),
      )
      refl

first_line : frontmatter_line no_frontmatter (c_string (codes "---\n")) ≡ (inside [] [], true)
unfolding frontmatter_line c_string equal trim strip_while skip_while unquote
first_line = refl

last_line :
    (name description : Bytes)
    → frontmatter_line (inside name description) (c_string (codes "---\n"))
      ≡ (inside name description, false)
unfolding frontmatter_line c_string equal trim strip_while skip_while unquote
last_line name description = refl

skill_file-fields :
    (v w body : Bytes)
    → IsPlain v
    → IsPlain w
    → length v ≤ 2040
    → length w ≤ 2033
    → frontmatter_lines no_frontmatter (fgets_lines 2048 (skill_file v w body))
      ≡ inside (copy_field 128 v) (copy_field 512 w)
skill_file-fields v w body hv hw kv kw =
    let last = codes "---\n" ∷ fgets_lines 2048 body in
    let described = codes "description: " ++ (w ++ b'\n' ∷ []) in
    let named = codes "name: " ++ (v ++ b'\n' ∷ []) in
    let a = copy_field 128 v in
    let b = copy_field 512 w in
    ap (frontmatter_lines no_frontmatter) (skill_file-lines v w body hv hw kv kw)
    ∙ (lines_on no_frontmatter (inside [] []) (codes "---\n") (named ∷ described ∷ last) first_line
        ∙ (lines_on (inside [] []) (inside a []) named (described ∷ last) (
              ap (frontmatter_line (inside [] [])) (c_string-line (codes "name: ") v refl hv.text)
              ∙ name_line v hv)
            ∙ (lines_on (inside a []) (inside a b) described last (
                  ap (frontmatter_line (inside a []))
                    (c_string-line (codes "description: ") w refl hw.text)
                  ∙ description_line a w hw)
                ∙ lines_end (inside a b) (inside a b) (codes "---\n") (fgets_lines 2048 body)
                    (last_line a b))))

name_is_set : (v : Bytes) → IsPlain v → ltb 0 (length (copy_field 128 v)) ≡ true
name_is_set [] h = absurd (no_bytes h.begins)
  where
    no_bytes : false ≡ true → ⊥
    no_bytes e = ground arith
name_is_set (c ∷ s) h = ground (arith, length-take 127 (c ∷ s))

-- A file that begins with the lines `---`, `name: v`, `description: w` and `---`, whatever stands
-- behind, gives the name `v` and the description `w`, cut to what their arrays hold, where both are
-- plain: of one line of less than 2 KB, without NUL, blanks at the ends, or a quote, `>` or `|` at
-- the start.
pub parse_frontmatter_lem :
    (v w body : Bytes)
    → IsPlain v
    → IsPlain w
    → length v ≤ 2040
    → length w ≤ 2033
    → parse_frontmatter (some (skill_file v w body)) ≡ some (copy_field 128 v, copy_field 512 w)
unfolding parse_frontmatter
parse_frontmatter_lem v w body hv hw kv kw =
    rw (skill_file-fields v w body hv hw kv kw, name_is_set v hv) refl
