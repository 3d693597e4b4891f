-- ===== src/Http/Socket.antt =====
-- main.c: `tcp_connect`, and the callbacks `sock_read` and `sock_write` that BearSSL gets. How the
-- system calls end is an argument.
pub mod Connects
use sa.Prelude.{ℕ, Bool, true, false, ◌&&◌, Option, none, some, List, [], ◌∷◌, ◌==◌, if◌then◌else◌}

-- `connect`: done, EINPROGRESS, or another error.
pub data Connecting : Type 0 where
  connected : Connecting
  in_progress : Connecting
  refused : Connecting

-- How the calls for one address end: `socket`, `connect`, whether `select` finds the socket ready
-- in time, and whether SO_ERROR is zero then.
pub record Attempt : Type 0 where
  pub socket : Option ℕ
  pub connect : Connecting
  pub ready : Bool
  pub sound : Bool

-- A descriptor with what the program sets: O_NONBLOCK, and SO_RCVTIMEO and SO_SNDTIMEO in seconds.
pub record Socket : Type 0 where
  pub fd : ℕ
  pub nonblocking : Bool
  pub timeout : Option ℕ

abbrev pub is_fd : ℕ → Socket → Bool
is_fd fd s = s.fd == fd

-- `close`, on the open sockets.
unfoldable pub close : ℕ → List Socket → List Socket
close fd [] = []
close fd (s ∷ ss) = let rest = close fd ss in if is_fd fd s then ss else s ∷ rest

-- `fcntl(fd, F_SETFL, ...)`.
unfoldable pub set_nonblocking : ℕ → Bool → List Socket → List Socket
set_nonblocking fd on [] = []
set_nonblocking fd on (s ∷ ss) =
    let rest = set_nonblocking fd on ss in
    if is_fd fd s then record s { nonblocking = on } ∷ ss else s ∷ rest

unfoldable pub set_timeout : ℕ → ℕ → List Socket → List Socket
set_timeout fd seconds [] = []
set_timeout fd seconds (s ∷ ss) =
    let rest = set_timeout fd seconds ss in
    if is_fd fd s then record s { timeout = some seconds } ∷ ss else s ∷ rest

-- What an attempt on an open, non-blocking socket comes to.
abbrev pub succeeds : Attempt → Bool
succeeds a = elim a.connect [
  | connected ↦ true
  | in_progress ↦ a.ready && a.sound
  | refused ↦ false
]

-- The loop over the addresses: the open sockets, and `fd`.
unfoldable pub connect_from : List Attempt → List Socket → List Socket × Option ℕ
connect_from [] opened = (opened, none)
connect_from (a ∷ others) opened = elim a.socket [
  | none ↦ connect_from others opened
  | some fd ↦
      let fresh = record { fd = fd; nonblocking = false; timeout = none } ∷ opened in
      let waiting = set_nonblocking fd true fresh in
      let next = connect_from others (close fd waiting) in
      if succeeds a then (set_nonblocking fd false waiting, some fd) else next
]

abbrev pub with_timeouts : List Socket × Option ℕ → List Socket × Option ℕ
with_timeouts (opened, none) = (opened, none)
with_timeouts (opened, some fd) = (set_timeout fd 30 opened, some fd)

-- `addresses` is what `getaddrinfo` gives, with how the calls for each end, or none.
unfoldable pub tcp_connect :
    (addresses : Option (List Attempt)) → List Socket → List Socket × Option ℕ
tcp_connect none opened = (opened, none)
tcp_connect (some attempts) opened = with_timeouts (connect_from attempts opened)

-- `recv` or `send`: a count, EINTR, or another error.
pub data Transfer : Type 0 where
  moved : ℕ → Transfer
  interrupted : Transfer
  failed : Transfer

-- What the callback returns for what its calls come to: a count, or none for -1. It waits on where
-- all were interrupted.
pub data Callback : Type 0 where
  returned : Option ℕ → Callback
  waiting : Callback

unfoldable pub sock_read : List Transfer → Callback
sock_read [] = waiting
sock_read (moved n ∷ ts) = returned (some n)
sock_read (interrupted ∷ ts) = sock_read ts
sock_read (failed ∷ ts) = returned none

unfoldable pub sock_write : List Transfer → Callback
sock_write [] = waiting
sock_write (moved n ∷ ts) = returned (some n)
sock_write (interrupted ∷ ts) = sock_write ts
sock_write (failed ∷ ts) = returned none
