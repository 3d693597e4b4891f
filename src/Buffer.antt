-- ===== src/Buffer.antt =====
-- main.c: `buf_t`; tinyjson.h: `cj_buf`. The other modules take a buffer as the bytes it holds; here
-- it is the memory behind `data`, of which a cell that nothing has written is none. An access past
-- the end, and a loop that does not end, give none.
pub mod Grow
pub mod Cells
pub mod Holds
pub mod Refines
use sa.Prelude.{
  ℕ, zero, suc, ◌+◌, ◌-◌, ◌*◌, ◌%◌, ◌^◌, Option, none, some, List, [], ◌∷◌, ◌++◌, ltb, leb, ◌==◌,
  if◌then◌else◌, length, set, take, drop, replicate,
}
use sa.Prelude.Bytes.{Bytes}

-- `data` is NULL where `cells` is empty.
pub record Buffer : Type 0 where
  pub cells : List (Option ℕ)
  pub len : ℕ
  pub cap : ℕ

abbrev pub no_buffer : Buffer
no_buffer = record { cells = []; len = 0; cap = 0 }

-- A `size_t` of 64 bits.
abbrev pub size_t : ℕ → ℕ
size_t n = n % 2 ^ 64

-- `while (c < need) c *= 2`.
unfoldable pub grow : (fuel : ℕ) → (need c : ℕ) → Option ℕ
grow zero need c = none
grow (suc fuel) need c =
    let doubled = grow fuel need (size_t (c * 2)) in if ltb c need then doubled else some c

-- `realloc`.
unfoldable pub resize : (c : ℕ) → List (Option ℕ) → List (Option ℕ)
resize c cells = take c cells ++ replicate (c - length cells) none

abbrev pub resized : Buffer → Option ℕ → Option Buffer
resized b none = none
resized b (some c) = some (record b { cells = resize c b.cells; cap = c })

-- Room for `need` bytes; `first` is the size that a buffer begins with. A doubling loop on 64 bits
-- takes 64 rounds at most.
unfoldable pub reserve : (first : ℕ) → Buffer → (need : ℕ) → Option Buffer
reserve first b need =
    if leb need b.cap
    then some b
    else resized b (grow 64 need (if b.cap == 0 then first else b.cap))

unfoldable pub buf_reserve : Buffer → (n : ℕ) → Option Buffer
buf_reserve b n = reserve 64 b (size_t (n + 1))

unfoldable pub written : Bytes → List (Option ℕ)
written [] = []
written (c ∷ s) = some c ∷ written s

-- `memcpy(data + i, s, length s)`.
unfoldable pub store : (i : ℕ) → Bytes → List (Option ℕ) → Option (List (Option ℕ))
store i s cells =
    if leb (i + length s) (length cells)
    then some (take i cells ++ (written s ++ drop (i + length s) cells))
    else none

abbrev pub stored : Buffer → (len : ℕ) → Option (List (Option ℕ)) → Option Buffer
stored b len none = none
stored b len (some cells) = some (record b { cells = cells; len = len })

abbrev pub ended : (len : ℕ) → Option Buffer → Option Buffer
ended len none = none
ended len (some b) = stored b len (store len (0 ∷ []) b.cells)

-- The bytes, the new length, and the zero byte.
abbrev pub put : Bytes → Option Buffer → Option Buffer
put s none = none
put s (some b) =
    let len = size_t (b.len + length s) in ended len (stored b len (store b.len s b.cells))

unfoldable pub buf_append : Buffer → Bytes → Option Buffer
buf_append b s = put s (buf_reserve b (size_t (b.len + length s)))

unfoldable pub buf_reset : Buffer → Buffer
buf_reset b = record b { cells = set b.cells 0 (some 0); len = 0 }

unfoldable pub buf_free : Buffer → Buffer
buf_free b = no_buffer

-- tinyjson.h.
unfoldable pub cj_bput : Buffer → Bytes → Option Buffer
cj_bput b s = put s (reserve 128 b (size_t (b.len + length s + 1)))

unfoldable pub cj_bputc : Buffer → ℕ → Option Buffer
cj_bputc b c = cj_bput b (c ∷ [])
