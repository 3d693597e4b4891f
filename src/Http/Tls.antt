-- ===== src/Http/Tls.antt =====
-- The TLS connection, as bearssl/inc/bearssl_ssl.h documents it: an interface. A connection is the
-- state of everything behind it, so that it also says whether a signal has set `g_interrupt`.
use sa.Prelude.{ℕ, ◌≤◌, ◌<◌, ◌≡◌, Bool, Option, some, ◌++◌, length}
use sa.Prelude.Bytes.{Bytes}

pub record Tls : Type 1 where
  pub Conn : Type 0
  -- `g_interrupt`, as the program finds it at this point.
  pub is_interrupted : Conn → Bool
  -- `br_sslio_read` of at most that many bytes; none is the return value -1.
  pub read : Conn → ℕ → Conn × Option Bytes
  -- `br_sslio_write_all` and `br_sslio_flush`, and whether they succeed.
  pub write_all : Conn → Bytes → Conn × Bool
  pub flush : Conn → Conn × Bool
  -- `br_sslio_close`, and `close` on the socket below.
  pub shut : Conn → Conn
  pub close : Conn → Conn

-- What the documentation says of reading: the bytes that the peer sent and closed after are obtained
-- in order, at least one and at most as many as asked for, as long as there are any.
pub record Delivery (tls : Tls) : Type 0 where
  pub pending : tls.Conn → Bytes
  pub read_some :
      (c : tls.Conn) (n : ℕ)
      → 0 < n
      → 0 < length (pending c)
      → (s : Bytes) × ((tls.read c n).1 ≡ some s)
        × (0 < length s)
        × (length s ≤ n)
        × (pending c ≡ s ++ pending (tls.read c n).0)
