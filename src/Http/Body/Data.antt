-- ===== src/Http/Body/Data.antt =====
-- main.c: the loop over the data of one chunk: whatever pieces the reads give, the callback has had
-- the data as if in one call.
use sa.Prelude.{
  ℕ, zero, suc, ◌-◌, ◌≤◌, min, ◌≡◌, refl, sym, ap, Bool, true, false, [], ◌∷◌, ◌++◌, append-nil,
  arith, ltb, if-split, length, take, drop, ◌∙◌, ==_refl, ◌<◌, some, append_assoc, length-append,
  length-drop, subst,
}
use sa.Prelude.Bytes.{Bytes}
use sa.Json.Number.{Doubles}
use sa.Stream.State.{raw_head_size, StreamState}
use sa.Stream.Chunk.{keep_head, feed, on_chunk}
use sa.Stream.Chunking.{on_chunk_lem, on_chunk-append}
use sa.Stream.Bounds.{IsBounded}
use sa.Stream.Bounds.Body.{on_chunk-IsBounded}
use sa.Http.Tls.{Tls, Delivery}
use sa.Http.Body.{call_back, Receiving, chunk_size, on_conn, read_chunk, Ending, complete}

split_front :
    (s p body rest : Bytes)
    → length s ≤ length body
    → body ++ rest ≡ s ++ p
    → (body ≡ s ++ drop (length s) body) × (p ≡ drop (length s) body ++ rest)
split_front [] p body rest h e = (refl, sym e)
split_front (c ∷ s) p [] rest h e = absurd (omega arith)
split_front (c ∷ s) p (x ∷ body) rest h e =
    let same : x ≡ c = ground arith in
    let rest_same = split_front s p body rest (omega arith) (ground arith) in
    (rw same (ap (◌∷◌ c) (rest_same.0)), rest_same.1)

take-nil : (n : ℕ) → take {A = ℕ} n [] ≡ []
take-nil zero = refl
take-nil (suc n) = refl

keep_head-nil : (head : Bytes) → keep_head head [] ≡ head
unfolding keep_head
keep_head-nil head =
    if-split (λ h. h ≡ head) (ltb (length head) raw_head_size)
      {x = head ++ take (min 0 (raw_head_size - length head)) []}
      (λ room. rw (take-nil (min 0 (raw_head_size - length head))) (append-nil head)) (λ full. refl)

module _ (tls : Tls) (dl : Delivery tls) (d : Doubles) (json : Bool)
    (quiet : (c : tls.Conn) → tls.is_interrupted c ≡ false) where
  open tls use {Conn, is_interrupted, read}
  open dl use {pending, read_some}

  -- The callback has had these bytes in between.
  abbrev pub Took : Receiving tls d json → Bytes → Receiving tls d json → Type 0
  Took r s r' =
      (r'.state ≡ (on_chunk d json false r.state s).0)
      × (r'.out ≡ r.out ++ (on_chunk d json false r.state s).1)

  on_chunk-nil : (st : StreamState) → on_chunk d json false st [] ≡ (st, [], 0)
  unfolding feed
  on_chunk-nil st = rw (on_chunk_lem d json st [], keep_head-nil)

  pub Took-nil : (r : Receiving tls d json) → Took r [] r
  Took-nil r = rw (on_chunk-nil r.state) (refl, sym (append-nil r.out))

  pub Took-append :
      (r r' r'' : Receiving tls d json) (s t : Bytes)
      → IsBounded r.state
      → Took r s r'
      → Took r' t r''
      → Took r (s ++ t) r''
  Took-append r r' r'' s t v h k =
      let two = on_chunk-append d json r.state s t v.head_fits in
      (
        k.0 ∙ (ap (λ st. (on_chunk d json false st t).0) (h.0) ∙ sym (ap (λ x. x.0) two)),
        k.1
            ∙ (ap (λ o. o ++ (on_chunk d json false r'.state t).1) (h.1)
                ∙ (append_assoc r.out (on_chunk d json false r.state s).1
                      (on_chunk d json false r'.state t).1
                    ∙ (ap
                          (λ st.
                            r.out
                            ++ ((on_chunk d json false r.state s).1
                                ++ (on_chunk d json false st t).1))
                          (h.0)
                        ∙ sym (ap (λ x. r.out ++ x.1) two)))),
      )

  pub IsBounded-Took :
      (r r' : Receiving tls d json) (s : Bytes)
      → IsBounded r.state
      → Took r s r'
      → IsBounded r'.state
  IsBounded-Took r r' s v h = rw (h.0) (on_chunk-IsBounded d json false r.state s v)

  call_back-Took :
      (r : Receiving tls d json) (s : Bytes)
      → Took r s (call_back tls d json r s).0 × ((call_back tls d json r s).1 ≡ true)
  unfolding call_back
  call_back-Took r s =
      rw (quiet r.conn) ((refl, refl), rw (on_chunk_lem d json r.state s) (==_refl (length s)))

  -- A loop has ended well: the body is taken, and the rest is pending.
  abbrev pub HasTaken :
      Receiving tls d json → (body rest : Bytes) → Receiving tls d json × Ending → Type 0
  HasTaken r body rest e = (e.1 ≡ complete) × (pending (e.0.conn) ≡ rest) × Took r body e.0

  pub HasTaken-append :
      (r r' : Receiving tls d json) (s t rest : Bytes) (e : Receiving tls d json × Ending)
      → IsBounded r.state
      → Took r s r'
      → HasTaken r' t rest e
      → HasTaken r (s ++ t) rest e
  HasTaken-append r r' s t rest e v h k = (k.0, k.1, Took-append r r' e.0 s t v h k.2)

  -- One round of the loop, where the read gives these bytes.
  read_chunk_lem :
      (fuel n : ℕ) (r : Receiving tls d json) (s : Bytes)
      → (read r.conn (min (suc n) chunk_size)).1 ≡ some s
      → let next =
          call_back tls d json (on_conn tls d json r (read r.conn (min (suc n) chunk_size)).0) s in
        read_chunk tls d json (suc fuel) (suc n) r
        ≡ read_chunk tls d json fuel (suc n - length s) next.0
  unfolding read_chunk
  read_chunk_lem fuel n r s e = rw (
    quiet r.conn,
    e,
    (call_back-Took (on_conn tls d json r (read r.conn (min (suc n) chunk_size)).0) s).1,
  )

  conn-call_back :
      (r : Receiving tls d json) (s : Bytes) → (call_back tls d json r s).0.conn ≡ r.conn
  unfolding call_back
  conn-call_back r s = refl

  read_chunk-zero :
      (fuel : ℕ) (r : Receiving tls d json) → read_chunk tls d json fuel 0 r ≡ (r, complete)
  unfolding read_chunk
  read_chunk-zero zero r = refl
  read_chunk-zero (suc fuel) r = refl

  -- The rounds take the whole of the chunk.
  pub read_chunk-HasTaken :
      (fuel n : ℕ) (r : Receiving tls d json) (body rest : Bytes)
      → IsBounded r.state
      → length body ≡ n
      → n ≤ fuel
      → pending r.conn ≡ body ++ rest
      → HasTaken r body rest (read_chunk tls d json fuel n r)
  read_chunk-HasTaken fuel zero r [] rest v size enough here =
      rw (read_chunk-zero fuel r) (refl, here, Took-nil r)
  read_chunk-HasTaken fuel zero r (x ∷ body) rest v size enough here = absurd (omega arith)
  read_chunk-HasTaken zero (suc n) r body rest v size enough here = absurd (omega arith)
  read_chunk-HasTaken (suc fuel) (suc n) r body rest v size enough here =
      let some_pending : 0 < length (pending r.conn) =
        omega (arith, ap length here, length-append body rest) in
      let got = read_some r.conn (min (suc n) chunk_size) (omega arith) some_pending in
      let s = got.0 in
      let after = (read r.conn (min (suc n) chunk_size)).0 in
      let next = call_back tls d json (on_conn tls d json r after) s in
      let took = (call_back-Took (on_conn tls d json r after) s).0 in
      let parts =
        split_front s (pending after) body rest (omega (arith, got.3)) (sym here ∙ got.4) in
      let left = drop (length s) body in
      let later : HasTaken next.0 left rest (read_chunk tls d json fuel (suc n - length s) next.0) =
        read_chunk-HasTaken fuel (suc n - length s) next.0 left rest
          (IsBounded-Took r next.0 s v took) (omega (arith, length-drop (length s) body))
          (omega (arith, got.2))
          (ap pending (conn-call_back (on_conn tls d json r after) s) ∙ parts.1) in
      rw (read_chunk_lem fuel n r s (got.1)) (
        subst (λ b. HasTaken r b rest (read_chunk tls d json fuel (suc n - length s) next.0))
          (sym (parts.0)) (HasTaken-append r next.0 s left rest _ v took later))
