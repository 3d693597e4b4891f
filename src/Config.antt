-- ===== src/Config.antt =====
-- config.def.h: the compile-time constants.
use sa.Prelude.{ℕ, ◌^◌}
use sa.Prelude.Bytes.{Bytes, codes}

abbrev pub base_system : Bytes
base_system =
    codes
      "You are a concise assistant. Use the shell tool for system questions. Keep replies short."

abbrev pub session_path : Bytes
session_path = codes ".sa_session.jsonl"

abbrev pub max_skills : ℕ
max_skills = 128

abbrev pub max_rules : ℕ
max_rules = 64

abbrev pub max_rule_paths : ℕ
max_rule_paths = 8

abbrev pub max_blocks : ℕ
max_blocks = 64

abbrev pub max_tool_iter : ℕ
max_tool_iter = 60

abbrev pub max_sse_line : ℕ
max_sse_line = 2 ^ 20

abbrev pub max_block_size : ℕ
max_block_size = 2 ^ 20
