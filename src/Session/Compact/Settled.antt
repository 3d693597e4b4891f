-- ===== src/Session/Compact/Settled.antt =====
-- main.c: what a compaction leaves: which messages it does not touch, and that a second one finds
-- nothing to clear, on which the retry of a turn relies.
use sa.Prelude.{
  ◌≡◌, refl, false, none, some, arith, ℕ, zero, suc, ◌-◌, Option, List, [], ◌∷◌, length, drop, sym,
  inl, inr, true, Bool-cases, ap,
}
use sa.Prelude.Bytes.{Bytes, codes, equal}
use sa.Json.Value.{
  Json, string, object, Fields, no_fields, field, array, Items, no_items, item, null, bool, number,
}
use sa.Json.Access.{find_field, get_object_item, get_string_value, get_text}
use sa.Session.Compact.{
  cleared, set_field, set_text, clearable, clear_item, is_long, keep_from, clear_items, clear_array,
  clear_content, clear_message, clear_first, compact_clear_tool_results,
}

module _ {D : Type 0} where
  find_field-set_field :
      (fs : Fields D) (k s : Bytes)
      → find_field (set_field fs k s) k
        ≡ elim (find_field fs k) [ none ↦ none | some v ↦ some (string s) ]
  unfolding find_field set_field
  find_field-set_field no_fields k s = refl
  find_field-set_field (field j v fs) k s = ground (arith, find_field-set_field fs k s)

  -- A text that was set is not long any more.
  is_long-text :
      (found : Option (Json D))
      → is_long
          (get_string_value {D = D} (elim found [ none ↦ none | some v ↦ some (string cleared) ]))
        ≡ false
  unfolding get_string_value equal
  is_long-text none = refl
  is_long-text (some v) = refl

  is_long-set_field :
      (fs : Fields D)
      → is_long
          (get_text (some (object (set_field fs (codes "content") cleared))) (codes "content"))
        ≡ false
  unfolding get_text get_object_item
  is_long-set_field fs =
      rw (find_field-set_field fs (codes "content") cleared)
        (is_long-text (find_field fs (codes "content")))

  clearable-set_field :
      (fs : Fields D) → clearable (object (set_field fs (codes "content") cleared)) ≡ false
  unfolding clearable
  clearable-set_field fs = ground (arith, is_long-set_field fs)

  pub clearable-object : (v : Json D) → clearable v ≡ true → (fs : Fields D) × (v ≡ object fs)
  unfolding clearable get_text get_object_item get_string_value
  clearable-object (object fs) h = (fs, refl)
  clearable-object null h = absurd (ground arith)
  clearable-object (bool b) h = absurd (ground arith)
  clearable-object (number x) h = absurd (ground arith)
  clearable-object (string s) h = absurd (ground arith)
  clearable-object (array xs) h = absurd (ground arith)

  set_text_settled :
      (v : Json D) → clearable v ≡ true → clearable (set_text v (codes "content") cleared) ≡ false
  unfolding set_text
  set_text_settled v h =
      let found = clearable-object v h in rw (found.1, clearable-set_field found.0)

  clear_item_twice : (v : Json D) → (clear_item (clear_item v).0).1 ≡ 0
  unfolding clear_item
  clear_item_twice v = elim (Bool-cases (clearable v)) [
    | inl long ↦ rw (long, set_text_settled v long)
    | inr short ↦ rw (short, short)
  ]

  clear_items_twice : (xs : Items D) → (clear_items (clear_items xs).0).1 ≡ 0
  unfolding clear_items
  clear_items_twice no_items = refl
  clear_items_twice (item v vs) = rw (clear_item_twice v, clear_items_twice vs)

  clear_array_twice : (v : Json D) → (clear_array (clear_array v).0).1 ≡ 0
  unfolding clear_array
  clear_array_twice (array xs) = clear_items_twice xs
  clear_array_twice _ = refl

  clear_content_twice : (fs : Fields D) → (clear_content (clear_content fs).0).1 ≡ 0
  unfolding clear_content
  clear_content_twice no_fields = refl
  clear_content_twice (field k v fs) = ground (arith, clear_array_twice v, clear_content_twice fs)

  clear_message_twice : (m : Json D) → (clear_message (clear_message m).0).1 ≡ 0
  unfolding clear_message
  clear_message_twice (object fs) = clear_content_twice fs
  clear_message_twice _ = refl

  clear_first_twice : (n : ℕ) (ms : List (Json D)) → (clear_first n (clear_first n ms).0).1 ≡ 0
  unfolding clear_first
  clear_first_twice zero ms = refl
  clear_first_twice (suc n) [] = refl
  clear_first_twice (suc n) (m ∷ ms) = rw (clear_message_twice m, clear_first_twice n ms)

  pub length-clear_first : (n : ℕ) (ms : List (Json D)) → length (clear_first n ms).0 ≡ length ms
  unfolding clear_first
  length-clear_first zero ms = refl
  length-clear_first (suc n) [] = refl
  length-clear_first (suc n) (m ∷ ms) = rw (length-clear_first n ms)

  -- A compaction right after another clears nothing.
  pub compact_twice :
      (ms : List (Json D)) (keep : ℕ)
      → (compact_clear_tool_results (compact_clear_tool_results ms keep).0 keep).1 ≡ 0
  unfolding compact_clear_tool_results
  compact_twice ms keep =
      let n = keep_from (length ms) keep in rw (length-clear_first n ms) (clear_first_twice n ms)

  drop-clear_first : (n : ℕ) (ms : List (Json D)) → drop n (clear_first n ms).0 ≡ drop n ms
  unfolding clear_first
  drop-clear_first zero ms = refl
  drop-clear_first (suc n) [] = refl
  drop-clear_first (suc n) (m ∷ ms) = drop-clear_first n ms

  drop_from : (n m : ℕ) (ms : List (Json D)) → n ≡ m → drop m (clear_first n ms).0 ≡ drop m ms
  drop_from n m ms e = rw (sym e) (drop-clear_first n ms)

  -- No message is added or removed, and the last `keep` of them stay as they are.
  pub compact_keeps :
      (ms : List (Json D)) (keep : ℕ)
      → let compacted = (compact_clear_tool_results ms keep).0 in
        (length compacted ≡ length ms)
        × (drop (length ms - keep) compacted ≡ drop (length ms - keep) ms)
  unfolding compact_clear_tool_results
  compact_keeps ms keep =
      let n = keep_from (length ms) keep in
      let from : n ≡ length ms - keep = ground arith in
      (length-clear_first n ms, drop_from n _ ms from)

  clear_item_none : (v : Json D) → (clear_item v).1 ≡ 0 → (clear_item v).0 ≡ v
  unfolding clear_item
  clear_item_none v h = ground arith

  clear_items_none : (xs : Items D) → (clear_items xs).1 ≡ 0 → (clear_items xs).0 ≡ xs
  unfolding clear_items
  clear_items_none no_items h = refl
  clear_items_none (item v vs) h =
      rw (clear_item_none v (omega arith), clear_items_none vs (omega arith))

  clear_array_none : (v : Json D) → (clear_array v).1 ≡ 0 → (clear_array v).0 ≡ v
  unfolding clear_array
  clear_array_none (array xs) h = ap array (clear_items_none xs h)
  clear_array_none v h = refl

  clear_content_none : (fs : Fields D) → (clear_content fs).1 ≡ 0 → (clear_content fs).0 ≡ fs
  unfolding clear_content
  clear_content_none no_fields h = refl
  clear_content_none (field k v fs) h = ground (arith, clear_array_none v, clear_content_none fs)

  clear_message_none : (m : Json D) → (clear_message m).1 ≡ 0 → (clear_message m).0 ≡ m
  unfolding clear_message
  clear_message_none (object fs) h = ap object (clear_content_none fs h)
  clear_message_none m h = refl

  clear_first_none :
      (n : ℕ) (ms : List (Json D)) → (clear_first n ms).1 ≡ 0 → (clear_first n ms).0 ≡ ms
  unfolding clear_first
  clear_first_none zero ms h = refl
  clear_first_none (suc n) [] h = refl
  clear_first_none (suc n) (m ∷ ms) h =
      rw (clear_message_none m (omega arith), clear_first_none n ms (omega arith))

  -- Where the count is zero, nothing has changed.
  pub compact_nothing :
      (ms : List (Json D)) (keep : ℕ)
      → (compact_clear_tool_results ms keep).1 ≡ 0
      → (compact_clear_tool_results ms keep).0 ≡ ms
  unfolding compact_clear_tool_results
  compact_nothing ms keep h = clear_first_none (keep_from (length ms) keep) ms h
