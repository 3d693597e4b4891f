-- ===== src/Stream/Chunking.antt =====
-- main.c: it does not matter how the transport cuts the body into calls of `on_chunk`.
use sa.Prelude.{
  ℕ, zero, suc, ◌+◌, ◌-◌, ◌≤◌, min, ◌≡◌, refl, sym, ap, inl, inr, Bool, false, List, [], ◌∷◌, ◌++◌,
  append_assoc, arith, ltb, leb, Bool-cases, length, take, length-take, take_all, take-append, ◌∙◌,
  true, ◌==◌, if◌then◌else◌, length-append,
}
use sa.Prelude.Bytes.{Bytes}
use sa.Config.{max_sse_line}
use sa.Json.Number.{Doubles}
use sa.Stream.State.{raw_head_size, StreamState}
use sa.Stream.Event.{handle_event}
use sa.Stream.Chunk.{
  is_data_line, keep_head, then_write, end_line, feed_byte, feed, on_chunk, payload, reset_line,
}
use sa.Stream.Frame.{framed_result, handle_event-framed}

module _ {ℓ} {A : Type ℓ} where
  take-length-min : (n : ℕ) (xs : List A) → take (min (length xs) n) xs ≡ take n xs
  take-length-min n xs = elim (Bool-cases (leb (length xs) n)) [
    | inl small ↦
        let e : min (length xs) n ≡ length xs = ground arith in
        rw (e, take_all (length xs) xs (omega arith), take_all n xs (ground arith))
    | inr big ↦ let e : min (length xs) n ≡ n = ground arith in rw e
  ]

  take-take-append : (n : ℕ) (xs ys : List A) → take n (take n xs ++ ys) ≡ take n (xs ++ ys)
  take-take-append zero xs ys = refl
  take-take-append (suc n) [] ys = refl
  take-take-append (suc n) (x ∷ xs) ys = ap (◌∷◌ x) (take-take-append n xs ys)

  pub take-append_full : (xs ys : List A) (n : ℕ) → length xs ≡ n → take n (xs ++ ys) ≡ xs
  take-append_full [] ys zero e = refl
  take-append_full [] ys (suc n) e = absurd (omega arith)
  take-append_full (x ∷ xs) ys zero e = absurd (omega arith)
  take-append_full (x ∷ xs) ys (suc n) e = ap (◌∷◌ x) (take-append_full xs ys n (omega arith))

-- The head of the body is its first bytes, as many as fit.
keep_head-take :
    (head s : Bytes)
    → length head ≤ raw_head_size
    → keep_head head s ≡ take raw_head_size (head ++ s)
unfolding keep_head
keep_head-take head s h = elim (Bool-cases (ltb (length head) raw_head_size)) [
  | inl room ↦ rw (
    room,
    take-append raw_head_size head s,
    take_all raw_head_size head h,
    take-length-min (raw_head_size - length head) s,
  )
  | inr full ↦ rw full (sym (take-append_full head s raw_head_size (ground arith)))
]

keep_head-append :
    (head a b : Bytes)
    → length head ≤ raw_head_size
    → keep_head head (a ++ b) ≡ keep_head (keep_head head a) b
keep_head-append head a b h =
    let kept : length (take raw_head_size (head ++ a)) ≤ raw_head_size =
      omega (arith, length-take raw_head_size (head ++ a)) in
    rw (
      keep_head-take head (a ++ b) h,
      keep_head-take head a h,
      keep_head-take _ b kept,
      take-take-append raw_head_size (head ++ a) b,
      append_assoc,
    )

abbrev headed : Bytes → StreamState × Bytes → StreamState × Bytes
headed h r = (record (r.0) { raw_head = h }, r.1)

if-headed :
    (h : Bytes) (c : Bool) (x y x' y' : StreamState × Bytes)
    → x' ≡ headed h x
    → y' ≡ headed h y
    → (if c then x' else y') ≡ headed h (if c then x else y)
if-headed h true x y x' y' hx hy = hx
if-headed h false x y x' y' hx hy = hy

module _ (d : Doubles) (json : Bool) where
  -- `handle_event` keeps the frame that it finds.
  pub handle_event-own_frame :
      (st : StreamState) (s : Bytes)
      → handle_event d json st s
        ≡ framed_result st.line st.line_dropped st.raw_head (handle_event d json st s)
  handle_event-own_frame st s = handle_event-framed st.line st.line_dropped st.raw_head d json st s

  -- The line that the handler leaves is dropped, so only the head of its result is another.
  reset_line-headed :
      (h : Bytes) (st : StreamState) (s : Bytes)
      → reset_line (handle_event d json (record st { raw_head = h }) s)
        ≡ headed h (reset_line (handle_event d json st s))
  reset_line-headed h st s =
      ap reset_line (handle_event-framed st.line st.line_dropped h d json st s)
      ∙ sym
          (ap (λ (r : StreamState × Bytes). headed h (reset_line r)) (handle_event-own_frame st s))

  end_line-headed :
      (h : Bytes) (st : StreamState)
      → end_line d json (record st { raw_head = h }) ≡ headed h (end_line d json st)
  unfolding end_line
  end_line-headed h st =
      if-headed h st.line_dropped _ _ _ _ refl
        (if-headed h (is_data_line st.line) _ _ _ _ (reset_line-headed h st (payload st.line)) refl)

  feed_byte-headed :
      (h : Bytes) (st : StreamState) (c : ℕ)
      → feed_byte d json (record st { raw_head = h }) c ≡ headed h (feed_byte d json st c)
  unfolding feed_byte
  feed_byte-headed h st c = if-headed h (c == b'\n') _ _ _ _ (end_line-headed h st) (
      if-headed h (c == b'\r') _ _ _ _ refl
        (if-headed h (leb max_sse_line (length st.line)) _ _ _ _ refl refl))

  feed-headed :
      (h : Bytes) (st : StreamState) (s : Bytes)
      → feed d json (record st { raw_head = h }) s ≡ headed h (feed d json st s)
  unfolding feed
  feed-headed h st [] = refl
  feed-headed h st (c ∷ s) = rw (feed_byte-headed h st c, feed-headed h (feed_byte d json st c).0 s)

  -- Feeding two pieces is feeding the first and then the second.
  pub feed-append :
      (st : StreamState) (a b : Bytes)
      → feed d json st (a ++ b)
        ≡ then_write (feed d json st a).1 (feed d json (feed d json st a).0 b)
  unfolding feed
  feed-append st [] b = refl
  feed-append st (c ∷ a) b = rw (feed-append (feed_byte d json st c).0 a b, append_assoc)

  -- A call is a run over its bytes from the state as it is, with the head brought up to date.
  pub on_chunk_lem :
      (st : StreamState) (s : Bytes)
      → on_chunk d json false st s ≡ (
        record (feed d json st s).0 { raw_head = keep_head st.raw_head s },
        (feed d json st s).1,
        length s,
      )
  unfolding on_chunk
  on_chunk_lem st s = rw (feed-headed (keep_head st.raw_head s) st s)

  -- One call with two pieces together has the state, the output and the count of two calls.
  pub on_chunk-append :
      (st : StreamState) (a b : Bytes)
      → length st.raw_head ≤ raw_head_size
      → on_chunk d json false st (a ++ b) ≡ (
          let first = on_chunk d json false st a in
          let second = on_chunk d json false first.0 b in
          (second.0, first.1 ++ second.1, first.2 + second.2))
  on_chunk-append st a b h = rw (
    on_chunk_lem st (a ++ b),
    on_chunk_lem st a,
    on_chunk_lem _ b,
    feed-headed (keep_head st.raw_head a) (feed d json st a).0 b,
    feed-append st a b,
    keep_head-append st.raw_head a b h,
    length-append a b,
  )
