-- ===== src/Http/Url.antt =====
-- main.c: `parse_url`.
pub mod Parts
use sa.Prelude.{
  ℕ, ◌-◌, not, ◌||◌, Option, none, some, [], ◌∷◌, leb, ◌==◌, if◌then◌else◌, length, take, drop,
}
use sa.Prelude.Bytes.{Bytes, codes, starts_with}
use sa.Prelude.Int.{ltb_ℤ, leb_ℤ, ℤ, pos}

-- What is written to `host`, `port` and `path`.
pub record Url : Type 0 where
  pub host : Bytes
  pub port : ℤ
  pub path : Bytes

-- `strchr(s, c)`: the string from the first `c` on, and the bytes before it.
unfoldable pub strchr : Bytes → ℕ → Option Bytes
strchr [] c = none
strchr (x ∷ s) c = let rest = strchr s c in if x == c then some (x ∷ s) else rest

unfoldable pub before : Bytes → ℕ → Bytes
before [] c = []
before (x ∷ s) c = let rest = before s c in if x == c then [] else x ∷ rest

abbrev pub path_or_root : Option Bytes → Bytes
path_or_root none = codes "/"
path_or_root (some path) = path

-- The host and the port. `atoi` is the C library's.
unfoldable pub with_port : (atoi : Bytes → ℤ) → (host path : Bytes) → Option Bytes → Option Url
with_port atoi host path none = some (record { host = host; port = pos 443; path = path })
with_port atoi host path (some colon) =
    let port = atoi (drop 1 colon) in
    if leb_ℤ port (pos 0) || ltb_ℤ (pos 65535) port
    then none
    else some (record { host = before host b':'; port = port; path = path })

unfoldable pub parse_url : (atoi : Bytes → ℤ) → Bytes → (host_size path_size : ℕ) → Option Url
parse_url atoi url host_size path_size =
    let p = drop 8 url in
    let host = before p b'/' in
    if not (starts_with (codes "https://") url)
    then none
    else if length host == 0 || leb host_size (length host)
    then none
    else with_port atoi host (take (path_size - 1) (path_or_root (strchr p b'/')))
        (strchr host b':')
