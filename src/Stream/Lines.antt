-- ===== src/Stream/Lines.antt =====
-- main.c: what the loop over the bytes does with a whole line, and so with a body made of lines.
use sa.Prelude.{
  ℕ, ◌+◌, ◌≤◌, ◌≡◌, Bool, true, false, not, ◌||◌, [], ◌∷◌, ◌++◌, arith, ltb, leb, ◌==◌,
  if◌then◌else◌, length, take, every, suc, refl, sym, ap, inl, inr, append_assoc, append-nil,
  &&-true, Bool-cases, length-append, take_all, ◌∙◌,
}
use sa.Prelude.Bytes.{Bytes}
use sa.Config.{max_sse_line}
use sa.Json.Number.{Doubles}
use sa.Stream.State.{StreamState}
use sa.Stream.Event.{handle_event}
use sa.Stream.Chunk.{feed_byte, feed, is_data_line, payload, end_line, reset_line}
use sa.Stream.Frame.{handle_event-framed}
use sa.Stream.Chunking.{take-append_full, handle_event-own_frame, feed-append}

-- A line without its carriage returns.
abbrev pub without_cr : Bytes → Bytes
without_cr [] = []
without_cr (c ∷ l) = if c == b'\r' then without_cr l else c ∷ without_cr l

abbrev pub no_newline : Bytes → Bool
no_newline = every (λ c. not (c == b'\n'))

-- The state between two lines.
abbrev pub between_lines : StreamState → StreamState
between_lines st = record st { line = []; line_dropped = false }

-- The line and the flag, and what they become behind bytes that are kept up to the cap `n`.
abbrev Grown : Type 0
Grown = Bytes × Bool

abbrev grown_to : ℕ → Bytes → Bool → Bytes → Grown
grown_to n l b kept = (take n (l ++ kept), b || ltb n (length l + length kept))

grown_to-nil : (n : ℕ) (l : Bytes) (b : Bool) → length l ≤ n → grown_to n l b [] ≡ (l, b)
grown_to-nil n l b h =
    let small : ltb n (length l + 0) ≡ false = ground arith in
    rw (append-nil l, take_all n l h, small) (or_false b)
  where
    or_false : (x : Bool) → ◌≡◌ {A = Grown} (l, x || false) (l, x)
    or_false true = refl
    or_false false = refl

-- A byte that fits is appended.
grown_to-room :
    (n : ℕ) (l : Bytes) (b : Bool) (c : ℕ) (kept : Bytes)
    → grown_to n (l ++ c ∷ []) b kept ≡ grown_to n l b (c ∷ kept)
grown_to-room n l b c kept =
    let same : length (l ++ c ∷ []) + length kept ≡ length l + suc (length kept) =
      omega (arith, length-append l (c ∷ [])) in
    rw (same, append_assoc)

-- A byte that does not fit spoils the line.
grown_to-full :
    (n : ℕ) (l : Bytes) (b : Bool) (c : ℕ) (kept : Bytes)
    → length l ≡ n
    → grown_to n l true kept ≡ grown_to n l b (c ∷ kept)
grown_to-full n l b c kept e =
    let over : ltb n (length l + suc (length kept)) ≡ true = ground arith in
    rw (take-append_full l kept n e, take-append_full l (c ∷ kept) n e, over) (or_true b)
  where
    or_true : (x : Bool) → ◌≡◌ {A = Grown} (l, true) (l, x || true)
    or_true true = refl
    or_true false = refl

abbrev put_line : StreamState → Grown → StreamState × Bytes
put_line st g = (record st { line = g.0; line_dropped = g.1 }, [])

module _ (d : Doubles) (json : Bool) where
  feed_byte-plain :
      (st : StreamState) (c : ℕ)
      → (c == b'\n') ≡ false
      → (c == b'\r') ≡ false
      → ltb (length st.line) max_sse_line ≡ true
      → feed_byte d json st c ≡ (record st { line = st.line ++ c ∷ [] }, [])
  feed_byte-plain st c h r room =
      let room' : leb max_sse_line (length st.line) ≡ false = ground arith in
      unfold feed_byte in rw (h, r, room')

  feed_byte-full :
      (st : StreamState) (c : ℕ)
      → (c == b'\n') ≡ false
      → (c == b'\r') ≡ false
      → ltb (length st.line) max_sse_line ≡ false
      → feed_byte d json st c ≡ (record st { line_dropped = true }, [])
  feed_byte-full st c h r full =
      let full' : leb max_sse_line (length st.line) ≡ true = ground arith in
      unfold feed_byte in rw (h, r, full')

  feed_byte-cr : (st : StreamState) (c : ℕ) → (c == b'\r') ≡ true → feed_byte d json st c ≡ (st, [])
  feed_byte-cr st c r = let n : (c == b'\n') ≡ false = ground arith in unfold feed_byte in rw (n, r)

  -- A run over bytes with no newline among them only fills the line.
  feed-body :
      (st : StreamState) (l : Bytes) (b : Bool) (body : Bytes)
      → length l ≤ max_sse_line
      → no_newline body ≡ true
      → feed d json (record st { line = l; line_dropped = b }) body
        ≡ put_line st (grown_to max_sse_line l b (without_cr body))
  unfolding feed
  feed-body st l b [] fits h = ap (put_line st) (sym (grown_to-nil max_sse_line l b fits))
  feed-body st l b (c ∷ body) fits h = elim (Bool-cases (c == b'\r')) [
    | inl cr ↦
        rw (feed_byte-cr (record st { line = l; line_dropped = b }) c cr, cr)
          (feed-body st l b body fits (&&-true (not (c == b'\n')) (no_newline body) h).1)
    | inr other ↦
        let plain : (c == b'\n') ≡ false =
          ground (arith, (&&-true (not (c == b'\n')) (no_newline body) h).0) in
        elim (Bool-cases (ltb (length l) max_sse_line)) [
          | inl room ↦
              rw
                (
                  feed_byte-plain (record st { line = l; line_dropped = b }) c plain other room,
                  other,
                )
                (feed-body st (l ++ c ∷ []) b body (rw (length-append l (c ∷ [])) (ground arith))
                    (&&-true (not (c == b'\n')) (no_newline body) h).1
                  ∙ ap (put_line st) (grown_to-room max_sse_line l b c (without_cr body)))
          | inr full ↦
              rw
                (
                  feed_byte-full (record st { line = l; line_dropped = b }) c plain other full,
                  other,
                )
                (feed-body st l true body fits (&&-true (not (c == b'\n')) (no_newline body) h).1
                  ∙ ap (put_line st)
                      (grown_to-full max_sse_line l b c (without_cr body) (ground arith)))
        ]
  ]

  -- What a line `l`, without its carriage returns, makes of the state.
  abbrev pub on_line : StreamState → Bytes → StreamState × Bytes
  on_line st l =
      if ltb max_sse_line (length l)
      then (st, [])
      else if is_data_line l
      then handle_event d json st (payload l)
      else (st, [])

  end_line-dropped :
      (st : StreamState) (l : Bytes)
      → end_line d json (record st { line = l; line_dropped = true }) ≡ (between_lines st, [])
  unfolding end_line
  end_line-dropped st l = refl

  -- The handler is run as from the state between two lines.
  reset_line-kept :
      (st : StreamState) (l p : Bytes)
      → reset_line (handle_event d json (record st { line = l; line_dropped = false }) p)
        ≡ handle_event d json (between_lines st) p
  reset_line-kept st l p =
      ap reset_line (handle_event-framed l false st.raw_head d json (between_lines st) p)
      ∙ sym (handle_event-own_frame d json (between_lines st) p)

  end_line-kept :
      (st : StreamState) (l : Bytes)
      → ltb max_sse_line (length l) ≡ false
      → end_line d json (record st { line = l; line_dropped = false })
        ≡ on_line (between_lines st) l
  end_line-kept st l short = elim (Bool-cases (is_data_line l)) [
    | inl is_data ↦
        rw (short, is_data) (unfold end_line in rw is_data (reset_line-kept st l (payload l)))
    | inr other ↦ rw (short, other) (unfold end_line in rw other)
  ]

  end_line-grown :
      (st : StreamState) (l : Bytes)
      → end_line d json (put_line st (grown_to max_sse_line [] false l)).0
        ≡ on_line (between_lines st) l
  end_line-grown st l =
      let zero_add : 0 + length l ≡ length l = omega arith in
      elim (Bool-cases (ltb max_sse_line (length l))) [
        | inl long ↦ rw (zero_add, long, end_line-dropped st (take max_sse_line l))
        | inr short ↦ rw (
          zero_add,
          short,
          take_all max_sse_line l (ground arith),
          end_line-kept st l short,
          short,
        )
      ]

  feed_newline : (st : StreamState) → feed d json st (b'\n' ∷ []) ≡ end_line d json st
  feed_newline st = (unfold feed feed_byte in rw append-nil)

  -- A line that ends is handed over if it is a `data:` line of at most `MAX_SSE_LINE` bytes, the
  -- carriage returns not counted; a longer one is dropped whole, and any other is passed over.
  pub feed-line :
      (st : StreamState) (l : Bytes)
      → no_newline l ≡ true
      → feed d json (between_lines st) (l ++ b'\n' ∷ []) ≡ on_line (between_lines st) (without_cr l)
  feed-line st l h = rw (
    feed-append d json (between_lines st) l (b'\n' ∷ []),
    feed-body st [] false l (omega arith) h,
    feed_newline,
    end_line-grown st (without_cr l),
  )
