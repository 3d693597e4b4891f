-- ===== src/Stream/State.antt =====
-- main.c: `block_t` and `stream_state_t`. A fixed array of chars is the C string that it holds, a
-- `buf_t` is its contents; the capacities are in the functions that write.
use sa.Prelude.{ℕ, ◌-◌, Bool, true, ◌&&◌, ltb, length, false, List, [], get_or, take, replicate}
use sa.Prelude.Bytes.{Bytes}
use sa.Config.{max_blocks}

pub record Block : Type 0 where
  pub type : Bytes
  pub id : Bytes
  pub name : Bytes
  pub text : Bytes
  pub partial : Bytes

pub record StreamState : Type 0 where
  pub blocks : List Block
  pub n : ℕ
  pub line : Bytes
  pub line_dropped : Bool
  pub raw_head : Bytes
  pub stop_reason : Bytes
  -- Whether every access to `blocks` so far was inside the array; one outside it is undefined in C.
  pub in_range : Bool

abbrev pub raw_head_size : ℕ
raw_head_size = 4096

abbrev pub empty_block : Block
empty_block = record { type = []; id = []; name = []; text = []; partial = [] }

-- `stream_state_t st = {0}`.
abbrev pub initial : StreamState
initial = record {
  blocks = replicate max_blocks empty_block;
  n = 0;
  line = [];
  line_dropped = false;
  raw_head = [];
  stop_reason = [];
  in_range = true;
}

-- `block_t *b = &st->blocks[i]`: outside the array, the state is marked, and the block is made up.
abbrev pub access_block : StreamState → ℕ → StreamState
access_block st i = record st { in_range = st.in_range && ltb i (length st.blocks) }

abbrev pub block_at : StreamState → ℕ → Block
block_at st i = get_or st.blocks i empty_block

-- What `strncpy(dst, s, size - 1)` and the NUL at the end leave in `dst`.
abbrev pub copy_field : ℕ → Bytes → Bytes
copy_field size s = take (size - 1) s
