-- ===== src/Buffer/Refines.antt =====
-- main.c: calls on a buffer, against the byte string that the rest of the program takes it for.
use sa.Prelude.{
  ℕ, ◌+◌, ◌^◌, ◌≤◌, ◌<◌, ◌≡◌, refl, sym, ap, ◌∙◌, ◌⊎◌, inl, inr, Option, none, some, List, [], ◌∷◌,
  ◌++◌, arith, length, get_elem?, set, length-append, length-set,
}
use sa.Prelude.Bytes.{Bytes}
use sa.Buffer.{no_buffer, written, buf_append, buf_reset, buf_free, Buffer}
use sa.Buffer.Holds.{buf_append-Holds, Holds}

-- The calls that change a buffer.
pub data Op : Type 0 where
  append : Bytes → Op
  reset : Op
  free : Op

-- What a call does to the byte string, and to the buffer.
abbrev pub abstract_op : Bytes → Op → Bytes
abstract_op s (append t) = s ++ t
abstract_op s reset = []
abstract_op s free = []

abbrev pub buffer_op : Buffer → Op → Option Buffer
buffer_op b (append t) = buf_append b t
buffer_op b reset = some (buf_reset b)
buffer_op b free = some (buf_free b)

unfoldable pub abstract_ops : Bytes → List Op → Bytes
abstract_ops s [] = s
abstract_ops s (o ∷ os) = abstract_ops (abstract_op s o) os

abbrev pub continued_by : (Buffer → Option Buffer) → Option Buffer → Option Buffer
continued_by on none = none
continued_by on (some b) = on b

unfoldable pub buffer_ops : List Op → Buffer → Option Buffer
buffer_ops [] b = some b
buffer_ops (o ∷ os) b = continued_by (buffer_ops os) (buffer_op b o)

-- The number of bytes that are appended.
abbrev appended : Op → ℕ
appended (append t) = length t
appended _ = 0

abbrev pub all_appended : List Op → ℕ
all_appended [] = 0
all_appended (o ∷ os) = appended o + all_appended os

first_cell :
    (cells : List (Option ℕ))
    → (length cells ≡ 0) ⊎ (get_elem? (set cells 0 (some 0)) 0 ≡ some (some 0))
first_cell [] = inl refl
first_cell (c ∷ cells) = inr refl

buf_reset-Holds : (b : Buffer) (s : Bytes) → Holds b s → Holds (buf_reset b) []
unfolding buf_reset written
buf_reset-Holds b s h = record {
  capacity = h.capacity ∙ sym (length-set b.cells 0 (some 0));
  measured = refl;
  begins = refl;
  ends = elim (first_cell b.cells) [
    | inl nothing ↦ inl (h.capacity ∙ nothing)
    | inr zeroed ↦ inr zeroed
  ];
}

pub no_buffer-Holds : Holds no_buffer []
unfolding written
no_buffer-Holds = record { capacity = refl; measured = refl; begins = refl; ends = inl refl }

op-Holds :
    (b : Buffer) (s : Bytes) (o : Op)
    → length s + appended o < 2 ^ 63
    → Holds b s
    → (r : Buffer) × (buffer_op b o ≡ some r) × Holds r (abstract_op s o)
unfolding buf_free
op-Holds b s (append t) small h = buf_append-Holds b s t small h
op-Holds b s reset small h = (buf_reset b, refl, buf_reset-Holds b s h)
op-Holds b s free small h = (no_buffer, refl, no_buffer-Holds)

length-abstract_op : (s : Bytes) (o : Op) → length (abstract_op s o) ≤ length s + appended o
length-abstract_op s (append t) = omega (arith, length-append s t)
length-abstract_op s reset = omega arith
length-abstract_op s free = omega arith

-- Calls of `buf_append`, `buf_reset` and `buf_free` in any order on a buffer that holds a byte string
-- end, write nowhere past the end of its memory, and leave a buffer that holds what the calls make
-- of the byte string, as long as less than 2 ^ 63 bytes are appended and held in all.
pub buffer_ops-Holds :
    (os : List Op) (b : Buffer) (s : Bytes)
    → length s + all_appended os < 2 ^ 63
    → Holds b s
    → (r : Buffer) × (buffer_ops os b ≡ some r) × Holds r (abstract_ops s os)
unfolding buffer_ops abstract_ops
buffer_ops-Holds [] b s small h = (b, refl, h)
buffer_ops-Holds (o ∷ os) b s small h =
    let bound = length-abstract_op s o in
    let first = op-Holds b s o (omega (arith, small)) h in
    let later =
      buffer_ops-Holds os first.0 (abstract_op s o) (omega (arith, bound, small)) first.2 in
    (later.0, ap (continued_by (buffer_ops os)) first.1 ∙ later.1, later.2)
