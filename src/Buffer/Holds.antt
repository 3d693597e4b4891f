-- ===== src/Buffer/Holds.antt =====
-- main.c, tinyjson.h: the bytes that a buffer holds.
use sa.Prelude.{
  ℕ, ◌+◌, ◌^◌, ◌≤◌, ◌<◌, ◌≡◌, refl, sym, ap, subst, ◌∙◌, ◌⊎◌, inr, false, Option, some, List, [],
  ◌∷◌, ◌++◌, append_assoc, arith, leb, ◌==◌, if◌then◌else◌, leb→le, if-split, length, get_elem?,
  take, drop, length-append, length-drop,
}
use sa.Prelude.Bytes.{Bytes}
use sa.Buffer.{
  size_t, resize, resized, reserve, buf_reserve, written, store, put, buf_append, cj_bput, Buffer,
}
use sa.Buffer.Grow.{size_t_small, IsRoom, grow_enough}
use sa.Buffer.Cells.{
  take_prefix, get_elem?-behind, length-written, written-append, length-resize, take-resize,
  length_begins, store_lem,
}

-- The memory begins with the bytes, and a zero byte where there is memory at all.
pub record Holds (b : Buffer) (s : Bytes) : Type 0 where
  pub capacity : b.cap ≡ length b.cells
  pub measured : b.len ≡ length s
  pub begins : take (length s) b.cells ≡ written s
  pub ends : (b.cap ≡ 0) ⊎ (get_elem? b.cells (length s) ≡ some (some 0))

-- Room for as many bytes, behind the bytes that the buffer holds.
record IsReady (s : Bytes) (need : ℕ) (b : Buffer) : Type 0 where
  capacity : b.cap ≡ length b.cells
  fits : need ≤ b.cap
  measured : b.len ≡ length s
  begins : take (length s) b.cells ≡ written s

abbrev Yields : (Buffer → Type 0) → Option Buffer → Type 0
Yields P o = (b : Buffer) × (o ≡ some b) × P b

leb_less : (n m : ℕ) → leb n m ≡ false → m < n
leb_less n m e = ground arith

-- The size that the loop begins with.
abbrev first_size : ℕ → Buffer → ℕ
first_size first b = if b.cap == 0 then first else b.cap

first_size_pos : (first : ℕ) (b : Buffer) → 0 < first → 0 < first_size first b
first_size_pos first b h = ground arith

resized-IsReady :
    (first need : ℕ) (b : Buffer) (s : Bytes)
    → Holds b s
    → b.cap < need
    → (o : Option ℕ) → IsRoom need o
    → Yields (IsReady s need) (resized b o)
resized-IsReady first need b s h less o g =
    let same = g.1 in
    let bound = g.2 in
    let capacity = h.capacity in
    subst (λ o. Yields (IsReady s need) (resized b o)) (sym same)
      (
        record b { cells = resize g.0 b.cells; cap = g.0 },
        refl,
        record {
          capacity = sym (length-resize g.0 b.cells);
          fits = bound;
          measured = h.measured;
          begins =
              take-resize (length s) g.0 b.cells (omega (arith, capacity, bound, less))
                (length_begins (length s) b.cells s refl h.begins)
              ∙ h.begins;
        },
      )

reserve-IsReady :
    (first need : ℕ) (b : Buffer) (s : Bytes)
    → 0 < first
    → need ≤ 2 ^ 63
    → Holds b s
    → Yields (IsReady s need) (reserve first b need)
unfolding reserve
reserve-IsReady first need b s positive small h =
    if-split (Yields (IsReady s need)) (leb need b.cap)
      (λ room. (
        b,
        refl,
        record {
          capacity = h.capacity;
          fits = leb→le need b.cap room;
          measured = h.measured;
          begins = h.begins;
        },
      ))
      (λ short.
        resized-IsReady first need b s h (leb_less need b.cap short) _
          (grow_enough need (first_size first b) small (first_size_pos first b positive)))

put_lem :
    (b : Buffer) (t : Bytes) (i n : ℕ) (during after : List (Option ℕ))
    → b.len ≡ i
    → size_t (i + length t) ≡ n
    → store i t b.cells ≡ some during
    → store n (0 ∷ []) during ≡ some after
    → put t (some b) ≡ some (record b { cells = after; len = n })
put_lem b t i n during after start end first second = rw (start, end, first, second) refl

-- The memory is as it was, up to the bytes that are written and the zero byte.
after_put :
    (b : Buffer) (s t : Bytes)
    → IsReady s (length s + length t + 1) b
    → let n = length s + length t in
      let during = written (s ++ t) ++ drop n b.cells in
      (store (length s) t b.cells ≡ some during)
      × (store n (0 ∷ []) during ≡ some ((written (s ++ t) ++ some 0 ∷ []) ++ drop (n + 1) during))
unfolding written
after_put b s t h =
    let n = length s + length t in
    let during = written (s ++ t) ++ drop n b.cells in
    let room = h.fits in
    let capacity = h.capacity in
    let bytes = written-append s t in
    let size = length-written (s ++ t) in
    let sum = length-append s t in
    let whole = length-append (written (s ++ t)) (drop n b.cells) in
    let rest = length-drop n b.cells in
    (
      store_lem (length s) t b.cells (omega (arith, room, capacity))
          ∙ ap some (
              ap (λ (u : List (Option ℕ)). (u ++ written t) ++ drop n b.cells) h.begins
              ∙ ap (λ (u : List (Option ℕ)). u ++ drop n b.cells) (sym bytes)),
      store_lem n (0 ∷ []) during (omega (arith, room, capacity, size, sum, whole, rest))
          ∙ ap (λ (u : List (Option ℕ)). some ((u ++ some 0 ∷ []) ++ drop (n + 1) during))
              (take_prefix n (written (s ++ t)) (drop n b.cells) (omega (arith, size, sum))),
    )

-- The bytes, then the zero byte, are written where there is room for them.
put-Holds :
    (s t : Bytes) (b : Buffer)
    → length s + length t + 1 < 2 ^ 64
    → IsReady s (length s + length t + 1) b
    → Yields (λ r. Holds r (s ++ t)) (put t (some b))
put-Holds s t b small h =
    let n = length s + length t in
    let during = written (s ++ t) ++ drop n b.cells in
    let after = (written (s ++ t) ++ some 0 ∷ []) ++ drop (n + 1) during in
    let steps = after_put b s t h in
    let room = h.fits in
    let capacity = h.capacity in
    let size = length-written (s ++ t) in
    let sum = length-append s t in
    let whole = length-append (written (s ++ t)) (drop n b.cells) in
    let rest = length-drop n b.cells in
    (
      record b { cells = after; len = n },
      put_lem b t (length s) n during after h.measured (size_t_small n (omega (arith, small)))
          steps.0 steps.1,
      record {
        capacity = omega (
          arith,
          room,
          capacity,
          size,
          sum,
          whole,
          rest,
          length-append (written (s ++ t) ++ some 0 ∷ []) (drop (n + 1) during),
          length-append {A = Option ℕ} (written (s ++ t)) (some 0 ∷ []),
          length-drop (n + 1) during,
        );
        measured = sym sum;
        begins =
            ap (take (length (s ++ t)))
              (append_assoc (written (s ++ t)) (some 0 ∷ []) (drop (n + 1) during))
            ∙ take_prefix (length (s ++ t)) (written (s ++ t)) (some 0 ∷ drop (n + 1) during)
                (sym size);
        ends = inr (
            ap (λ (u : List (Option ℕ)). get_elem? u (length (s ++ t)))
              (append_assoc (written (s ++ t)) (some 0 ∷ []) (drop (n + 1) during))
            ∙ get_elem?-behind (length (s ++ t)) (written (s ++ t)) (some 0) (drop (n + 1) during)
                (sym size));
      },
    )

-- What follows a buffer that is made ready.
ready-Holds :
    (s t : Bytes) (o : Option Buffer)
    → length s + length t + 1 < 2 ^ 64
    → Yields (IsReady s (length s + length t + 1)) o
    → Yields (λ r. Holds r (s ++ t)) (put t o)
ready-Holds s t o small (b, same, h) =
    subst (λ o. Yields (λ r. Holds r (s ++ t)) (put t o)) (sym same) (put-Holds s t b small h)

-- An append to a buffer that holds `s` ends, writes nowhere past the end of its memory, and leaves a
-- buffer that holds `s ++ t` with the zero byte behind, as long as the two have less than 2 ^ 63
-- bytes together.
pub buf_append-Holds :
    (b : Buffer) (s t : Bytes)
    → length s + length t < 2 ^ 63
    → Holds b s
    → (r : Buffer) × (buf_append b t ≡ some r) × Holds r (s ++ t)
unfolding buf_append buf_reserve
buf_append-Holds b s t small h =
    let n = length s + length t in
    let same : size_t (size_t (b.len + length t) + 1) ≡ n + 1 = omega (arith, h.measured, small) in
    ready-Holds s t _ (omega arith) (
      subst (λ need. Yields (IsReady s (n + 1)) (reserve 64 b need)) (sym same)
        (reserve-IsReady 64 (n + 1) b s (omega arith) (omega arith) h))

-- A `cj_bput` on a buffer that holds `s` ends, writes nowhere past the end of its memory, and leaves
-- a buffer that holds `s ++ t` with the zero byte behind, as long as the two have less than 2 ^ 63
-- bytes together.
pub cj_bput-Holds :
    (b : Buffer) (s t : Bytes)
    → length s + length t < 2 ^ 63
    → Holds b s
    → (r : Buffer) × (cj_bput b t ≡ some r) × Holds r (s ++ t)
unfolding cj_bput
cj_bput-Holds b s t small h =
    let n = length s + length t in
    let same : size_t (b.len + length t + 1) ≡ n + 1 = omega (arith, h.measured, small) in
    ready-Holds s t _ (omega arith) (
      subst (λ need. Yields (IsReady s (n + 1)) (reserve 128 b need)) (sym same)
        (reserve-IsReady 128 (n + 1) b s (omega arith) (omega arith) h))
