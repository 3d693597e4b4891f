-- ===== src/Tools/Read/Page.antt =====
-- main.c: the lines that `read_file_tool` shows are those of the page that was asked for.
use sa.Prelude.{
  ℕ, zero, suc, ◌+◌, ◌≤◌, ◌≡◌, true, Option, none, some, List, [], ◌∷◌, ◌++◌, ltb, leb,
  if◌then◌else◌, length, take, All, sym, false, append-nil, arith, length-append, ◌-◌, refl, ◌∙◌,
  append_assoc, drop,
}
use sa.Prelude.Bytes.{Bytes, is_text}
use sa.Tools.Read.{max_read_bytes, line_prefix, show_line, scan, Reading, cap_notice, unread}

-- Lines with their numbers, the first of which is given.
abbrev pub numbered_from : ℕ → List Bytes → Bytes
numbered_from n [] = []
numbered_from n (l ∷ ls) = (line_prefix n ++ l) ++ numbered_from (suc n) ls

scan_lem :
    (offset limit : ℕ) (r : Reading) (l : Bytes) (ls : List Bytes)
    → is_text l ≡ true
    → scan offset limit r (l ∷ ls) ≡ (
        if ltb (suc r.lineno) offset
        then scan offset limit (record r { lineno = suc r.lineno }) ls
        else if leb limit r.lines_read
        then some (record r { lineno = suc r.lineno })
        else if ltb max_read_bytes (show_line r l).total
        then some (record (show_line r l) { out = (show_line r l).out ++ cap_notice })
        else scan offset limit (show_line r l) ls)
unfolding scan
scan_lem offset limit r l ls h = rw h

-- A reading that holds these bytes, and that many lines.
abbrev pub Holds : Option Reading → Bytes → ℕ → Type 0
Holds none out n = ⊥
Holds (some r) out n = (r.out ≡ out) × (r.lines_read ≡ n)

Holds-to : (o : Option Reading) {a b : Bytes} {m n : ℕ} → Holds o a m → a ≡ b → m ≡ n → Holds o b n
Holds-to none h e f = h
Holds-to (some r) h e f = (h.0 ∙ e, h.1 ∙ f)

take-nil : (n : ℕ) → take {A = Bytes} n [] ≡ []
take-nil zero = refl
take-nil (suc n) = refl

scan_end :
    (offset limit : ℕ) (r : Reading)
    → Holds (scan offset limit r []) (r.out ++ []) (r.lines_read + 0)
unfolding scan
scan_end offset limit r = (sym (append-nil r.out), omega arith)

-- From the first line of the page on.
scan-shown :
    (offset limit left : ℕ) (r : Reading) (ls : List Bytes)
    → offset ≤ suc r.lineno
    → r.lines_read + left ≡ limit
    → All (λ l. is_text l ≡ true) ls
    → r.total + length (numbered_from (suc r.lineno) (take left ls)) ≤ max_read_bytes
    → Holds
        (scan offset limit r ls)
        (r.out ++ numbered_from (suc r.lineno) (take left ls))
        (r.lines_read + length (take left ls))
unfolding show_line
scan-shown offset limit zero r [] on fits text small = scan_end offset limit r
scan-shown offset limit (suc left) r [] on fits text small = scan_end offset limit r
scan-shown offset limit zero r (l ∷ ls) on fits text small =
    let started : ltb (suc r.lineno) offset ≡ false = ground arith in
    let full : leb limit r.lines_read ≡ true = ground arith in
    rw (scan_lem offset limit r l ls text.0, started, full) (sym (append-nil r.out), omega arith)
scan-shown offset limit (suc left) r (l ∷ ls) on fits text small =
    let next = show_line r l in
    let tail = numbered_from (suc next.lineno) (take left ls) in
    let sizes = length-append (line_prefix (suc r.lineno) ++ l) tail in
    let started : ltb (suc r.lineno) offset ≡ false = ground arith in
    let room : leb limit r.lines_read ≡ false = ground arith in
    let below : ltb max_read_bytes next.total ≡ false = ground (arith, sizes) in
    let later : Holds (scan offset limit next ls) (next.out ++ tail)
        (next.lines_read + length (take left ls)) =
      scan-shown offset limit left next ls (omega arith) (omega arith) text.1
        (omega (arith, sizes)) in
    rw (scan_lem offset limit r l ls text.0, started, room, below)
      (Holds-to (scan offset limit next ls) later
        (append_assoc r.out (line_prefix (suc r.lineno) ++ l) tail) (omega arith))

-- Before the page.
scan-skipped :
    (offset limit s : ℕ) (r : Reading) (ls : List Bytes)
    → suc r.lineno + s ≡ offset
    → r.lines_read ≡ 0
    → All (λ l. is_text l ≡ true) ls
    → r.total + length (numbered_from offset (take limit (drop s ls))) ≤ max_read_bytes
    → Holds
        (scan offset limit r ls)
        (r.out ++ numbered_from offset (take limit (drop s ls)))
        (length (take limit (drop s ls)))
scan-skipped offset limit zero r ls at start text small =
    let first : suc r.lineno ≡ offset = omega arith in
    let shown =
      scan-shown offset limit limit r ls (omega arith) (omega arith) text (rw first small) in
    Holds-to (scan offset limit r ls) shown (rw first) (rw start (omega arith))
scan-skipped offset limit (suc s) r [] at start text small =
    rw (take-nil limit)
      (Holds-to (scan offset limit r []) (scan_end offset limit r) refl (omega arith))
scan-skipped offset limit (suc s) r (l ∷ ls) at start text small =
    let before : ltb (suc r.lineno) offset ≡ true = ground arith in
    rw (scan_lem offset limit r l ls text.0, before)
      (scan-skipped offset limit s (record r { lineno = suc r.lineno }) ls (omega arith) start
        text.1 small)

-- On lines without a NUL the loop shows the lines from the offset on, at most as many as the limit,
-- each under its number, where they fit in 256 KB.
pub scan-page :
    (offset limit : ℕ) (ls : List Bytes)
    → 1 ≤ offset
    → All (λ l. is_text l ≡ true) ls
    → length (numbered_from offset (take limit (drop (offset - 1) ls))) ≤ max_read_bytes
    → Holds
        (scan offset limit unread ls)
        (numbered_from offset (take limit (drop (offset - 1) ls)))
        (length (take limit (drop (offset - 1) ls)))
scan-page offset limit ls h text small =
    scan-skipped offset limit (offset - 1) unread ls (omega arith) refl text (omega (arith, small))
