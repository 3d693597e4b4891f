-- ===== src/Chat/Answered.antt =====
-- main.c: conversations in which every tool use has its result in the next message, and the steps
-- that keep them so.
use sa.Prelude.{
  ℕ, ◌≡◌, refl, sym, ap, ◌∙◌, ◌⊎◌, inl, inr, false, Option, some, List, [], ◌∷◌, ◌++◌,
  if◌then◌else◌, Bool-cases, zero, suc, length,
}
use sa.Prelude.Bytes.{Bytes, codes, equal, equal_iff}
use sa.Json.Value.{Json, array, object, Items, no_items, item, Fields, no_fields, field}
use sa.Session.Compact.Settled.{clearable-object}
use sa.Json.Access.{find_field, get_object_item, get_text}
use sa.Session.Compact.{
  cleared, is_text_of, set_field, set_text, clearable, clear_item, keep_from, clear_items,
  clear_array, clear_content, clear_message, clear_first, compact_clear_tool_results,
}

content_type : equal (codes "content") (codes "type") ≡ false
unfolding equal
content_type = refl

content_id : equal (codes "content") (codes "id") ≡ false
unfolding equal
content_id = refl

content_use : equal (codes "content") (codes "tool_use_id") ≡ false
unfolding equal
content_use = refl

module _ {D : Type 0} where
  -- The texts under a key of the blocks of a type, in order.
  unfoldable pub block_ids : (type key : Bytes) → Items D → List (Option Bytes)
  block_ids type key no_items = []
  block_ids type key (item v vs) =
      let rest = block_ids type key vs in
      if is_text_of type (get_text (some v) (codes "type"))
      then get_text (some v) key ∷ rest
      else rest

  unfoldable pub content_ids : (type key : Bytes) → Option (Json D) → List (Option Bytes)
  content_ids type key (some (array xs)) = block_ids type key xs
  content_ids type key _ = []

  unfoldable pub message_ids : (type key : Bytes) → Json D → List (Option Bytes)
  message_ids type key m = content_ids type key (get_object_item (some m) (codes "content"))

  -- The tool uses of a message, and the tool uses that its results answer.
  abbrev pub uses : Json D → List (Option Bytes)
  uses = message_ids (codes "tool_use") (codes "id")

  abbrev pub results : Json D → List (Option Bytes)
  results = message_ids (codes "tool_result") (codes "tool_use_id")

  abbrev pub Follows : Json D → Json D → Type 0
  Follows m next = (uses m ≡ []) ⊎ (uses m ≡ results next)

  -- No tool use is without the result that the next message gives, in the same order.
  abbrev pub Answered : List (Json D) → Type 0
  Answered [] = Unit
  Answered (m ∷ []) = uses m ≡ []
  Answered (m ∷ next ∷ ms) = Follows m next × Answered (next ∷ ms)

  pub Answered-append :
      (ms : List (Json D)) (x : Json D) (xs : List (Json D))
      → Answered ms
      → Answered (x ∷ xs)
      → Answered (ms ++ x ∷ xs)
  Answered-append [] x xs h hx = hx
  Answered-append (m ∷ []) x xs h hx = (inl h, hx)
  Answered-append (m ∷ next ∷ ms) x xs h hx = (h.0, Answered-append (next ∷ ms) x xs h.1 hx)

  -- Messages with the same tool uses and the same results.
  abbrev SameIds : List (Json D) → List (Json D) → Type 0
  SameIds [] [] = Unit
  SameIds (m ∷ ms) (n ∷ ns) = ((uses m ≡ uses n) × (results m ≡ results n)) × SameIds ms ns
  SameIds _ _ = ⊥

  Answered-SameIds : (ms ns : List (Json D)) → SameIds ms ns → Answered ms → Answered ns
  Answered-SameIds [] [] s h = tt
  Answered-SameIds (m ∷ []) (n ∷ []) s h = sym (s.0.0) ∙ h
  Answered-SameIds (m ∷ m' ∷ ms) (n ∷ n' ∷ ns) s h = (
    elim (h.0) [
      | inl none_used ↦ inl (sym (s.0.0) ∙ none_used)
      | inr answer ↦ inr (sym (s.0.0) ∙ (answer ∙ s.1.0.1))
    ],
    Answered-SameIds (m' ∷ ms) (n' ∷ ns) s.1 h.1,
  )
  Answered-SameIds (m ∷ []) (n ∷ n' ∷ ns) s h = absurd (s.1)
  Answered-SameIds (m ∷ m' ∷ ms) (n ∷ []) s h = absurd (s.1)
  Answered-SameIds [] (n ∷ ns) s h = absurd s
  Answered-SameIds (m ∷ ms) [] s h = absurd s

  -- Clearing a text leaves the other fields alone.
  find_other :
      (fs : Fields D) (k j s : Bytes)
      → equal k j ≡ false
      → find_field (set_field fs k s) j ≡ find_field fs j
  unfolding find_field set_field
  find_other no_fields k j s h = refl
  find_other (field i v fs) k j s h = elim (Bool-cases (equal i k)) [
    | inl here ↦
        let same : i ≡ k = (equal_iff i k).0 here in
        let other : equal i j ≡ false = ap (λ t. equal t j) same ∙ h in rw (here, other)
    | inr elsewhere ↦ rw (elsewhere, find_other fs k j s h)
  ]

  text-set_text :
      (fs : Fields D) (key : Bytes)
      → equal (codes "content") key ≡ false
      → get_text (some (set_text (object fs) (codes "content") cleared)) key
        ≡ get_text (some (object fs)) key
  unfolding set_text get_text get_object_item
  text-set_text fs key h = rw (find_other fs (codes "content") key cleared h)

  text-clear_item :
      (v : Json D) (key : Bytes)
      → equal (codes "content") key ≡ false
      → get_text (some (clear_item v).0) key ≡ get_text (some v) key
  unfolding clear_item
  text-clear_item v key h = elim (Bool-cases (clearable v)) [
    | inl long ↦
        let found = clearable-object v long in rw (long, found.1) (text-set_text found.0 key h)
    | inr short ↦ rw short
  ]

  block_ids-clear_items :
      (type key : Bytes) (xs : Items D)
      → equal (codes "content") key ≡ false
      → block_ids type key (clear_items xs).0 ≡ block_ids type key xs
  unfolding block_ids clear_items
  block_ids-clear_items type key no_items h = refl
  block_ids-clear_items type key (item v vs) h = rw (
    text-clear_item v (codes "type") content_type,
    text-clear_item v key h,
    block_ids-clear_items type key vs h,
  )

  content_ids-clear_array :
      (type key : Bytes) (v : Json D)
      → equal (codes "content") key ≡ false
      → content_ids type key (some (clear_array v).0) ≡ content_ids type key (some v)
  unfolding content_ids clear_array
  content_ids-clear_array type key (array xs) h = block_ids-clear_items type key xs h
  content_ids-clear_array type key v h = refl

  content_ids-clear_content :
      (type key : Bytes) (fs : Fields D)
      → equal (codes "content") key ≡ false
      → content_ids type key (find_field (clear_content fs).0 (codes "content"))
        ≡ content_ids type key (find_field fs (codes "content"))
  unfolding clear_content find_field
  content_ids-clear_content type key no_fields h = refl
  content_ids-clear_content type key (field k v fs) h =
      elim (Bool-cases (equal k (codes "content"))) [
        | inl here ↦ rw here (rw here (content_ids-clear_array type key v h))
        | inr elsewhere ↦ rw elsewhere (rw elsewhere (content_ids-clear_content type key fs h))
      ]

  message_ids-clear_message :
      (type key : Bytes) (m : Json D)
      → equal (codes "content") key ≡ false
      → message_ids type key (clear_message m).0 ≡ message_ids type key m
  unfolding message_ids clear_message get_object_item
  message_ids-clear_message type key (object fs) h = content_ids-clear_content type key fs h
  message_ids-clear_message type key m h = refl

  SameIds-refl : (ms : List (Json D)) → SameIds ms ms
  SameIds-refl [] = tt
  SameIds-refl (m ∷ ms) = ((refl, refl), SameIds-refl ms)

  SameIds-clear_first : (n : ℕ) (ms : List (Json D)) → SameIds ms (clear_first n ms).0
  unfolding clear_first
  SameIds-clear_first zero ms = SameIds-refl ms
  SameIds-clear_first (suc n) [] = tt
  SameIds-clear_first (suc n) (m ∷ ms) = (
    (
      sym (message_ids-clear_message (codes "tool_use") (codes "id") m content_id),
      sym (message_ids-clear_message (codes "tool_result") (codes "tool_use_id") m content_use),
    ),
    SameIds-clear_first n ms,
  )

  -- A compaction leaves every tool use its result.
  pub compact-Answered :
      (ms : List (Json D)) (keep : ℕ)
      → Answered ms
      → Answered (compact_clear_tool_results ms keep).0
  unfolding compact_clear_tool_results
  compact-Answered ms keep h =
      let n = keep_from (length ms) keep in
      Answered-SameIds ms (clear_first n ms).0 (SameIds-clear_first n ms) h
