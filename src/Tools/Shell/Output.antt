-- ===== src/Tools/Shell/Output.antt =====
-- main.c: what the loop of `run_shell` reads.
use sa.Prelude.{
  ℕ, zero, suc, ◌+◌, ◌-◌, ◌*◌, ◌<◌, ◌≡◌, refl, false, [], ◌∷◌, ◌++◌, arith, ltb, length, take, ◌≤◌,
  ap, Bool, true, if◌then◌else◌, drop, take_all, append-nil, ltb→lt, if-split, length-append,
  length-take, sym, ◌∙◌, inl, inr, some, append_assoc, leb, leb→le, Bool-cases, length-drop, ◌^◌,
  ◌==◌,
}
use sa.Prelude.Bytes.{Bytes, codes, c_string}
use sa.Prelude.Decimal.{decimal, decimal_ℤ}
use sa.Tools.Shell.{
  max_output, chunk_size, read_output, shell_result, run_shell, Ended, exited, signaled, unknown,
  trailer,
}

read_output-nil : (fuel : ℕ) (out : Bytes) → read_output fuel out [] ≡ (out, false)
unfolding read_output
read_output-nil zero out = refl
read_output-nil (suc fuel) out = refl

the_same : (m k : ℕ) → 0 + m ≡ k → m ≡ k
the_same m k h = omega arith

take-split : (n m k : ℕ) (s : Bytes) → n + m ≡ k → take n s ++ take m (drop n s) ≡ take k s
take-split zero m k s h = ap (λ j. take j s) (the_same m k h)
take-split (suc n) m zero s h = absurd (omega arith)
take-split (suc n) m (suc k) [] h = take_all m [] (omega arith)
take-split (suc n) m (suc k) (c ∷ s) h = ap (◌∷◌ c) (take-split n m k s (omega arith))

drop_all : (n : ℕ) (s : Bytes) → length s ≤ n → drop n s ≡ []
drop_all zero [] h = refl
drop_all zero (c ∷ s) h = absurd (omega arith)
drop_all (suc n) [] h = refl
drop_all (suc n) (c ∷ s) h = drop_all n s (omega arith)

abbrev Read : Type 0
Read = Bytes × Bool

pair_path : (a b : Bytes) (p q : Bool) → a ≡ b → p ≡ q → ◌≡◌ {A = Read} (a, p) (b, q)
pair_path a b p q h k = rw (h, k) refl

ltb-false : (n a : ℕ) → a ≤ n → false ≡ ltb n a
ltb-false n a h = ground arith

ltb-true : (n a : ℕ) → n < a → true ≡ ltb n a
ltb-true n a h = ground arith

leb-false : (n a : ℕ) → leb n a ≡ false → a < n
leb-false n a h = ground arith

-- What is left to read after `k` full chunks.
abbrev room : ℕ → ℕ
room k = max_output + chunk_size - chunk_size * k

-- The start of the rest, and whether it is not the whole.
abbrev from_chunks : ℕ → Bytes → Bytes → Read
from_chunks k out rest = (out ++ take (room k) rest, ltb max_output (length out + length rest))

none_left : (n : ℕ) → 0 ≤ n
none_left n = omega arith

after_nil :
    (k : ℕ) (out : Bytes)
    → length out ≤ max_output
    → ◌≡◌ {A = Read} (out, false) (from_chunks k out [])
after_nil k out h =
    pair_path out (out ++ take (room k) []) false (ltb max_output (length out + 0))
      (rw (take_all {A = ℕ} (room k) [] (none_left (room k)), append-nil out) refl)
      (ltb-false max_output (length out + 0) (omega arith))

-- A round that goes on, where what follows it is known.
small_round :
    (fuel k : ℕ) (out rest : Bytes)
    → k < 257
    → length out ≡ chunk_size * k
    → length (out ++ take chunk_size rest) ≤ max_output
    → (suc k < 257
        → length (out ++ take chunk_size rest) ≡ chunk_size * suc k
        → read_output fuel (out ++ take chunk_size rest) (drop chunk_size rest)
          ≡ from_chunks (suc k) (out ++ take chunk_size rest) (drop chunk_size rest))
    → read_output fuel (out ++ take chunk_size rest) (drop chunk_size rest) ≡ from_chunks k out rest
small_round fuel k out rest h e small later =
    let first = take chunk_size rest in
    let left = drop chunk_size rest in
    let more = out ++ first in
    let size = length-append out first in
    let read = length-take chunk_size rest in
    let unread = length-drop chunk_size rest in
    elim (Bool-cases (leb chunk_size (length rest))) [
      | inl whole ↦
          let some_left = leb→le chunk_size (length rest) whole in
          later (omega arith) (omega arith)
          ∙ pair_path (more ++ take (room (suc k)) left) (out ++ take (room k) rest)
              (ltb max_output (length more + length left))
              (ltb max_output (length out + length rest))
              (append_assoc out first (take (room (suc k)) left)
                ∙ ap (◌++◌ out) (take-split chunk_size (room (suc k)) (room k) rest (omega arith)))
              (ap (ltb max_output) (omega arith))
      | inr short ↦
          let few = leb-false chunk_size (length rest) short in
          rw (drop_all chunk_size rest (omega arith), read_output-nil fuel more)
            (pair_path more (out ++ take (room k) rest) false
              (ltb max_output (length out + length rest))
              (ap (◌++◌ out) (
                take_all chunk_size rest (omega arith)
                ∙ sym (take_all (room k) rest (omega arith))))
              (ltb-false max_output (length out + length rest) (omega arith)))
    ]

full_round :
    (fuel k : ℕ) (out rest : Bytes)
    → k < 257
    → length out ≡ chunk_size * k
    → (suc k < 257
        → length (out ++ take chunk_size rest) ≡ chunk_size * suc k
        → read_output fuel (out ++ take chunk_size rest) (drop chunk_size rest)
          ≡ from_chunks (suc k) (out ++ take chunk_size rest) (drop chunk_size rest))
    → (if ltb max_output (length (out ++ take chunk_size rest))
        then (out ++ take chunk_size rest, true)
        else read_output fuel (out ++ take chunk_size rest) (drop chunk_size rest))
      ≡ from_chunks k out rest
full_round fuel k out rest h e later =
    let more = out ++ take chunk_size rest in
    let size = length-append out (take chunk_size rest) in
    let read = length-take chunk_size rest in
    if-split (λ (r : Read). r ≡ from_chunks k out rest) (ltb max_output (length more))
      (λ big.
        let gt = ltb→lt max_output (length more) big in
        let full : room k ≡ chunk_size = omega arith in
        pair_path more (out ++ take (room k) rest) true (ltb max_output (length out + length rest))
          (rw full refl) (ltb-true max_output (length out + length rest) (omega arith)))
      (λ low. small_round fuel k out rest h e (ground (arith, low)) later)

read_output-from :
    (fuel k : ℕ) (out rest : Bytes)
    → fuel + k ≡ 257
    → k < 257
    → length out ≡ chunk_size * k
    → read_output fuel out rest ≡ from_chunks k out rest
unfolding read_output
read_output-from zero k out rest n h e = absurd (omega arith)
read_output-from (suc fuel) k out [] n h e = after_nil k out (omega arith)
read_output-from (suc fuel) k out (c ∷ s) n h e = full_round fuel k out (c ∷ s) h e (λ less same.
    read_output-from fuel (suc k) (out ++ take chunk_size (c ∷ s)) (drop chunk_size (c ∷ s))
      (omega arith) less same)

-- What is shown of an output: its first bytes, or that there are none.
abbrev pub shown_output : Bytes → Bytes
shown_output [] = codes "(no output)"
shown_output (c ∷ s) = take (2 ^ 20 + 4096) (c ∷ s)

abbrev pub truncation_notice : Bytes → Bytes
truncation_notice output =
    if ltb (2 ^ 20) (length output) then codes "\n[output truncated at 1MB]" else []

-- The last line: how the command ended.
abbrev pub status_line : Ended → Bytes
status_line (exited n) = codes "\n[exit " ++ (decimal n ++ codes "]")
status_line (signaled n) = codes "\n[signal " ++ (decimal n ++ codes "]")
status_line (unknown z) = codes "\n[status " ++ (decimal_ℤ z ++ codes "]")

trailer-status_line : (status : Ended) → trailer status ≡ status_line status
trailer-status_line (exited n) = refl
trailer-status_line (signaled n) = refl
trailer-status_line (unknown z) = refl

some_output : (n c : ℕ) (s : Bytes) → 0 < n → (length (take n (c ∷ s)) == 0) ≡ false
some_output zero c s h = absurd (omega arith)
some_output (suc n) c s h = ground arith

shell_result_lem :
    (got : Bytes) (truncated : Bool) (status : Ended)
    → shell_result (got, truncated) status
      ≡ c_string (
          (if length got == 0 then codes "(no output)" else got)
          ++ ((if truncated then codes "\n[output truncated at 1MB]" else [])
              ++ take 63 (trailer status)))
unfolding shell_result
shell_result_lem got truncated status = refl

shown_lem :
    (output : Bytes)
    → (if length (take (2 ^ 20 + 4096) output) == 0
        then codes "(no output)"
        else take (2 ^ 20 + 4096) output)
      ≡ shown_output output
shown_lem [] = refl
shown_lem (c ∷ s) = rw (some_output (2 ^ 20 + 4096) c s (omega arith))

shell_result-shown :
    (output : Bytes) (status : Ended)
    → shell_result (take (max_output + chunk_size) output, ltb max_output (length output)) status
      ≡ c_string (shown_output output ++ (truncation_notice output ++ take 63 (status_line status)))
shell_result-shown output status =
    shell_result_lem (take (max_output + chunk_size) output) (ltb max_output (length output)) status
    ∙ rw (shown_lem output, trailer-status_line status)

-- The text for the model, up to its first NUL byte: the output, its first 2^20 + 4096 bytes at most,
-- or "(no output)"; the notice where the output is longer than 2^20 bytes; and how the command ended,
-- 63 bytes of that at most.
pub run_shell_lem :
    (output : Bytes) (status : Ended)
    → run_shell (some (output, status))
      ≡ c_string (shown_output output ++ (truncation_notice output ++ take 63 (status_line status)))
unfolding run_shell
run_shell_lem output status =
    ap (λ r. shell_result r status)
      (read_output-from 257 0 [] output (omega arith) (omega arith) (omega arith)
        ∙ ap (λ n. (take (max_output + chunk_size) output, ltb max_output n))
            (zero_add (length output)))
    ∙ shell_result-shown output status
  where
    zero_add : (n : ℕ) → 0 + n ≡ n
    zero_add n = omega arith
