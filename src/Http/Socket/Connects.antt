-- ===== src/Http/Socket/Connects.antt =====
-- main.c: the sockets that `tcp_connect` leaves open.
use sa.Prelude.{
  ℕ, ◌≡◌, refl, ap, ◌∙◌, inl, inr, false, Option, none, some, List, [], ◌∷◌, if◌then◌else◌, ==_refl,
  Bool-cases, Option-cases,
}
use sa.Http.Socket.{
  close, set_nonblocking, set_timeout, succeeds, connect_from, with_timeouts, tcp_connect, Attempt,
  Socket,
}

-- The descriptor of the first address that can be connected to.
unfoldable pub first_connected : List Attempt → Option ℕ
first_connected [] = none
first_connected (a ∷ others) = elim a.socket [
  | none ↦ first_connected others
  | some fd ↦ if succeeds a then some fd else first_connected others
]

-- The sockets that were open, and with one returned that one, blocking, with timeouts.
abbrev pub opened_with : List Socket → Option ℕ → List Socket × Option ℕ
opened_with opened none = (opened, none)
opened_with opened (some fd) =
    (record { fd = fd; nonblocking = false; timeout = some 30 } ∷ opened, some fd)

abbrev before_timeouts : List Socket → Option ℕ → List Socket × Option ℕ
before_timeouts opened none = (opened, none)
before_timeouts opened (some fd) =
    (record { fd = fd; nonblocking = false; timeout = none } ∷ opened, some fd)

connect_from_lem :
    (attempts : List Attempt) (opened : List Socket)
    → connect_from attempts opened ≡ before_timeouts opened (first_connected attempts)
unfolding connect_from first_connected close set_nonblocking
connect_from_lem [] opened = refl
connect_from_lem (a ∷ others) opened = elim (Option-cases a.socket) [
  | inl without ↦ rw without (connect_from_lem others opened)
  | inr (fd, socket) ↦ elim (Bool-cases (succeeds a)) [
    | inl good ↦ rw (socket, good, ==_refl fd) (rw (==_refl fd) refl)
    | inr bad ↦ rw (socket, bad, ==_refl fd) (rw (==_refl fd) (connect_from_lem others opened))
  ]
]

timeouts_lem :
    (opened : List Socket) (o : Option ℕ)
    → with_timeouts (before_timeouts opened o) ≡ opened_with opened o
unfolding set_timeout
timeouts_lem opened none = refl
timeouts_lem opened (some fd) = rw (==_refl fd) refl

-- `tcp_connect` returns the socket of the first address that can be connected to, blocking again and
-- with timeouts of 30 seconds, and closes every other socket it opened; where there is none, or no
-- address, it leaves the open sockets as they were.
pub tcp_connect_lem :
    (attempts : List Attempt) (opened : List Socket)
    → (tcp_connect (some attempts) opened ≡ opened_with opened (first_connected attempts))
      × (tcp_connect none opened ≡ opened_with opened none)
unfolding tcp_connect
tcp_connect_lem attempts opened = (
  ap with_timeouts (connect_from_lem attempts opened)
      ∙ timeouts_lem opened (first_connected attempts),
  refl,
)
