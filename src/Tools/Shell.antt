-- ===== src/Tools/Shell.antt =====
-- main.c: `run_shell`. What a command prints and how it ends is a parameter.
pub mod Output
use sa.Prelude.{
  ℕ, zero, suc, ◌+◌, ◌^◌, Bool, true, false, Option, none, some, [], ◌∷◌, ◌++◌, ltb, ◌==◌,
  if◌then◌else◌, length, take, drop,
}
use sa.Prelude.Bytes.{Bytes, codes, c_string}
use sa.Prelude.Int.{ℤ}
use sa.Prelude.Decimal.{decimal, decimal_ℤ}
use sa.Tools.Write.{print_into}

-- What `pclose` says: `WIFEXITED`, `WIFSIGNALED`, or another status.
pub data Ended : Type 0 where
  exited : ℕ → Ended
  signaled : ℕ → Ended
  unknown : ℤ → Ended

abbrev pub max_output : ℕ
max_output = 2 ^ 20

abbrev pub chunk_size : ℕ
chunk_size = 4096

-- The loop over `fread`, which gives a full chunk until the output ends: what was appended, and
-- `truncated`. A round that goes on has appended a chunk, so that 257 rounds are enough.
unfoldable pub read_output : (fuel : ℕ) → (out rest : Bytes) → Bytes × Bool
read_output zero out rest = (out, false)
read_output (suc fuel) out [] = (out, false)
read_output (suc fuel) out (c ∷ s) =
    let more = out ++ take chunk_size (c ∷ s) in
    let after = read_output fuel more (drop chunk_size (c ∷ s)) in
    if ltb max_output (length more) then (more, true) else after

abbrev pub trailer : Ended → Bytes
trailer (exited n) = codes "\n[exit " ++ (decimal n ++ codes "]")
trailer (signaled n) = codes "\n[signal " ++ (decimal n ++ codes "]")
trailer (unknown z) = codes "\n[status " ++ (decimal_ℤ z ++ codes "]")

-- What is returned for what was read.
unfoldable pub shell_result : Bytes × Bool → Ended → Bytes
shell_result got status =
    let shown = if length got.0 == 0 then codes "(no output)" else got.0 in
    let notice = if got.1 then codes "\n[output truncated at 1MB]" else [] in
    c_string (shown ++ (notice ++ print_into 64 (trailer status)))

-- The command that is run.
unfoldable pub wrapped : Bytes → Bytes
wrapped cmd = print_into (length cmd + 32) (cmd ++ codes " 2>&1")

-- `ran` is what `popen` gives for the wrapped command: the output and the status, or none.
unfoldable pub run_shell : (ran : Option (Bytes × Ended)) → Bytes
run_shell none = codes "error: popen failed"
run_shell (some (output, status)) = shell_result (read_output 257 [] output) status
