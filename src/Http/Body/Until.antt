-- ===== src/Http/Body/Until.antt =====
-- main.c: the loops that read up to an end, byte by byte: `http_read_headers` and the size lines of
-- `http_stream_body`.
use sa.Prelude.{
  ℕ, ◌-◌, ◌≡◌, refl, true, false, [], ◌∷◌, ◌++◌, arith, leb, ◌==◌, length, drop, length-append,
  zero, suc, ◌≤◌, ◌<◌, sym, ap, ◌∙◌, inl, inr, Bool, not, Option, none, some, append_assoc, &&-true,
  Bool-cases, take, take-append-drop,
}
use sa.Prelude.Bytes.{Bytes, equal_refl, equal, equal_iff}
use sa.Http.Tls.{Tls, Delivery}
use sa.Http.Url.Parts.{lacks}
use sa.Http.Headers.{crlf, ends_with, read_until}

drop-append : (a e : Bytes) → drop (length a) (a ++ e) ≡ e
drop-append [] e = refl
drop-append (x ∷ a) e = drop-append a e

pub ends_with-append : (e a : Bytes) → ends_with e (a ++ e) ≡ true
ends_with-append e a =
    let sizes = length-append a e in
    let at : length (a ++ e) - length e ≡ length a = omega (arith, sizes) in
    let room : leb (length e) (length (a ++ e)) ≡ true = ground (arith, sizes) in
    rw (room, at, drop-append a e, equal_refl e)

last_same : (a b : Bytes) (x y : ℕ) → a ++ x ∷ [] ≡ b ++ y ∷ [] → x ≡ y
last_same [] [] x y h = ground arith
last_same [] (c ∷ []) x y h = absurd (ground arith)
last_same [] (c ∷ c' ∷ b) x y h = absurd (ground arith)
last_same (c ∷ []) [] x y h = absurd (ground arith)
last_same (c ∷ c' ∷ a) [] x y h = absurd (ground arith)
last_same (c ∷ a) (c' ∷ b) x y h = last_same a b x y (ground arith)

-- Only a line feed ends a line.
ends_with-other :
    (used : Bytes) (x : ℕ) → (x == b'\n') ≡ false → ends_with crlf (used ++ x ∷ []) ≡ false
ends_with-other used x h =
    let w = used ++ x ∷ [] in
    let k = length w - 2 in
    elim (Bool-cases (ends_with crlf w)) [
      | inl ends ↦
          let both = &&-true (leb 2 (length w)) (equal (drop k w) crlf) ends in
          let end : drop k w ≡ crlf = (equal_iff (drop k w) crlf).0 both.1 in
          let whole : w ≡ (take k w ++ b'\r' ∷ []) ++ b'\n' ∷ [] =
            sym (take-append-drop k w)
            ∙ (ap (λ e. take k w ++ e) end
                ∙ sym (append_assoc (take k w) (b'\r' ∷ []) (b'\n' ∷ []))) in
          let same : x ≡ b'\n' = last_same used (take k w ++ b'\r' ∷ []) x b'\n' whole in
          absurd (ground arith)
      | inr other ↦ other
    ]

-- The end is met just behind these bytes, and not before.
abbrev pub EndsAt : (end used t : Bytes) → Type 0
EndsAt end used [] = ⊥
EndsAt end used (x ∷ []) = ends_with end (used ++ x ∷ []) ≡ true
EndsAt end used (x ∷ y ∷ t) =
    (ends_with end (used ++ x ∷ []) ≡ false) × EndsAt end (used ++ x ∷ []) (y ∷ t)

-- A line without a line feed, and then CR LF.
pub EndsAt-line : (used line : Bytes) → lacks b'\n' line ≡ true → EndsAt crlf used (line ++ crlf)
EndsAt-line used [] h =
    let whole = ends_with-append crlf used in
    (ends_with-other used b'\r' refl, rw append_assoc whole)
EndsAt-line used (x ∷ []) h =
    let both = &&-true (not (x == b'\n')) true h in
    (ends_with-other used x (ground arith), EndsAt-line (used ++ x ∷ []) [] refl)
EndsAt-line used (x ∷ y ∷ line) h =
    let both = &&-true (not (x == b'\n')) (lacks b'\n' (y ∷ line)) h in
    (
      ends_with-other used x (ground (arith, both.0)),
      EndsAt-line (used ++ x ∷ []) (y ∷ line) both.1,
    )

-- One byte of what is pending.
one_byte :
    (s p t : Bytes) (x : ℕ) → 0 < length s → length s ≤ 1 → x ∷ t ≡ s ++ p → (s ≡ x ∷ []) × (p ≡ t)
one_byte [] p t x h k e = absurd (omega arith)
one_byte (c ∷ []) p t x h k e = ground arith
one_byte (c ∷ c' ∷ s) p t x h k e = absurd (omega arith)

module _ (tls : Tls) (dl : Delivery tls) where
  open tls use {Conn, read}
  open dl use {pending, read_some}

  -- The read of one pending byte.
  read_one :
      (c : Conn) (x : ℕ) (t : Bytes)
      → pending c ≡ x ∷ t
      → ((read c 1).1 ≡ some (x ∷ [])) × (pending (read c 1).0 ≡ t)
  read_one c x t e =
      let some_pending : 0 < length (pending c) = rw e (omega arith) in
      let got = read_some c 1 (omega arith) some_pending in
      let one = one_byte got.0 (pending (read c 1).0) t x got.2 got.3 (sym e ∙ got.4) in
      (got.1 ∙ ap some (one.0), one.1)

  -- What `read_until` has read, and what is left.
  abbrev pub HasRead : Bytes → Bytes → Conn × Option (Bytes × Bool) → Type 0
  HasRead s rest r = (r.1 ≡ some (s, true)) × (pending r.0 ≡ rest)

  read_until_lem :
      (end : Bytes) (left : ℕ) (c : Conn) (used : Bytes)
      → read_until tls end (suc left) c used ≡ elim ((read c 1).1) [
        | none ↦ ((read c 1).0, none)
        | some s ↦ elim (ends_with end (used ++ s)) [
          | true ↦ ((read c 1).0, some (used ++ s, true))
          | false ↦ read_until tls end left (read c 1).0 (used ++ s)
        ]
      ]
  unfolding read_until
  read_until_lem end left c used = refl

  pub read_until-HasRead :
      (end used t rest : Bytes) (left : ℕ) (c : Conn)
      → EndsAt end used t
      → length t ≤ left
      → pending c ≡ t ++ rest
      → HasRead (used ++ t) rest (read_until tls end left c used)
  read_until-HasRead end used [] rest left c h k e = absurd h
  read_until-HasRead end used (x ∷ t) rest zero c h k e = absurd (omega arith)
  read_until-HasRead end used (x ∷ []) rest (suc left) c h k e =
      let one = read_one c x rest e in rw (read_until_lem end left c used, one.0, h) (refl, one.1)
  read_until-HasRead end used (x ∷ y ∷ t) rest (suc left) c h k e =
      let one = read_one c x (y ∷ t ++ rest) e in
      rw (read_until_lem end left c used, one.0, h.0)
        (rw append_assoc at (
          read_until-HasRead end (used ++ x ∷ []) (y ∷ t) rest left (read c 1).0 h.1 (omega arith)
            one.1))
