-- ===== src/Stream/Frame.antt =====
-- main.c: `handle_event` neither reads nor writes the line, the flag or the head of the state, and
-- the loop over the bytes leaves the head alone.
use sa.Prelude.{ℕ, ◌≡◌, refl, ap, Bool, true, false, Option, none, some, [], if◌then◌else◌}
use sa.Prelude.Bytes.{Bytes, codes, equal}
use sa.Json.Value.{Json}
use sa.Json.Number.{Doubles}
use sa.Json.Access.{get_object_item, get_text}
use sa.Json.Parser.{parse}
use sa.Stream.State.{StreamState}
use sa.Stream.Event.{
  on_delta, on_message_delta, at_slot, with_type, event_slot, on_event, handle_event,
}

abbrev pub framed : Bytes → Bool → Bytes → StreamState → StreamState
framed l b h st = record st { line = l; line_dropped = b; raw_head = h }

abbrev pub framed_result : Bytes → Bool → Bytes → StreamState × Bytes → StreamState × Bytes
framed_result l b h r = (framed l b h r.0, r.1)

if-framed :
    (l : Bytes) (b : Bool) (h : Bytes) (c : Bool) (x y x' y' : StreamState × Bytes)
    → x' ≡ framed_result l b h x
    → y' ≡ framed_result l b h y
    → (if c then x' else y') ≡ framed_result l b h (if c then x else y)
if-framed l b h true x y x' y' hx hy = hx
if-framed l b h false x y x' y' hx hy = hy

module _ (l : Bytes) (b : Bool) (h : Bytes) where
  on_delta-framed :
      {D : Type 0} (json : Bool) (st : StreamState) (dl : Option (Json D)) (dt : Bytes) (i : ℕ)
      → on_delta json (framed l b h st) dl dt i ≡ framed_result l b h (on_delta json st dl dt i)
  unfolding on_delta
  on_delta-framed json st dl dt i =
      if-framed l b h (equal dt (codes "text_delta")) _ _ _ _ refl
        (if-framed l b h (equal dt (codes "input_json_delta")) _ _ _ _ refl refl)

  on_message_delta-framed :
      (st : StreamState) (sr : Option Bytes)
      → on_message_delta (framed l b h st) sr ≡ framed l b h (on_message_delta st sr)
  unfolding on_message_delta
  on_message_delta-framed st none = refl
  on_message_delta-framed st (some sr) = refl

  at_slot-framed :
      (st : StreamState) (o : Option ℕ) (k k' : ℕ → StreamState × Bytes)
      → ((i : ℕ) → k' i ≡ framed_result l b h (k i))
      → at_slot (framed l b h st) o k' ≡ framed_result l b h (at_slot st o k)
  unfolding at_slot
  at_slot-framed st none k k' e = refl
  at_slot-framed st (some i) k k' e = e i

  with_type-framed :
      (st : StreamState) (o : Option Bytes) (k k' : Bytes → StreamState × Bytes)
      → ((t : Bytes) → k' t ≡ framed_result l b h (k t))
      → with_type (framed l b h st) o k' ≡ framed_result l b h (with_type st o k)
  unfolding with_type
  with_type-framed st none k k' e = refl
  with_type-framed st (some t) k k' e = e t

  module _ (d : Doubles) (json : Bool) where
    open d use {Double}

    on_event-framed :
        (st : StreamState) (evt : Option (Json Double)) (t : Bytes)
        → on_event d json (framed l b h st) evt t ≡ framed_result l b h (on_event d json st evt t)
    unfolding on_event
    on_event-framed st evt t =
        let dl = get_object_item evt (codes "delta") in
        if-framed l b h (equal t (codes "content_block_start")) _ _ _ _
          (at_slot-framed st (event_slot d evt) _ _ (λ i. refl))
          (if-framed l b h (equal t (codes "content_block_delta")) _ _ _ _
            (at_slot-framed st (event_slot d evt) _ _ (λ i.
              with_type-framed st (get_text dl (codes "type")) _ _
                (λ dt. on_delta-framed json st dl dt i)))
            (if-framed l b h (equal t (codes "message_delta")) _ _ _ _
              (ap (λ (s : StreamState). (s, []))
                (on_message_delta-framed st (get_text dl (codes "stop_reason"))))
              refl))

    pub handle_event-framed :
        (st : StreamState) (s : Bytes)
        → handle_event d json (framed l b h st) s ≡ framed_result l b h (handle_event d json st s)
    unfolding handle_event
    handle_event-framed st s =
        with_type-framed st (get_text (parse d s) (codes "type")) _ _
          (λ t. on_event-framed st (parse d s) t)
