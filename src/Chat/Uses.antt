-- ===== src/Chat/Uses.antt =====
-- main.c: the tool uses in the content that `blocks_to_content` makes are the blocks' own.
use sa.Prelude.{
  ◌≡◌, refl, sym, ap, ◌∙◌, true, false, Option, none, some, List, [], ◌∷◌, arith, if◌then◌else◌,
  if-split, inl, inr, Bool-cases,
}
use sa.Prelude.Bytes.{Bytes, codes, equal, equal_iff}
use sa.Json.Value.{append_field, add_string_to_object, Json, Items, from_list, no_items}
use sa.Json.Number.{Doubles}
use sa.Json.Access.{find_field, get_object_item, get_string_value, get_text}
use sa.Stream.State.{Block}
use sa.Stream.Content.{
  block_input, typed, usable, tool_use_object, block_object, cons_object, objects_of,
}
use sa.Chat.Messages.{is_tool_use, has_tool_use}
use sa.Chat.Answered.{block_ids}

-- The ids of the blocks that are tool uses.
abbrev pub ids_of : List Block → List (Option Bytes)
ids_of [] = []
ids_of (b ∷ bs) = let rest = ids_of bs in if is_tool_use b then some b.id ∷ rest else rest

pub ids_of-none : (bs : List Block) → has_tool_use bs ≡ false → ids_of bs ≡ []
unfolding has_tool_use
ids_of-none [] h = refl
ids_of-none (b ∷ bs) h = ground (arith, ids_of-none bs)

abbrev tool_use_ids : {D : Type 0} → Items D → List (Option Bytes)
tool_use_ids = block_ids (codes "tool_use") (codes "id")

pub not_both : (t : Bytes) → equal t (codes "text") ≡ true → equal t (codes "tool_use") ≡ true → ⊥
unfolding equal
not_both t text used =
    let same : t ≡ codes "text" = (equal_iff t (codes "text")).0 text in
    let other : true ≡ false = sym used ∙ ap (λ s. equal s (codes "tool_use")) same in ground arith

pub not_empty : (t : Bytes) → equal t [] ≡ true → equal t (codes "tool_use") ≡ false
unfolding equal
not_empty [] h = refl
not_empty (c ∷ t) h = absurd (ground arith)

pub block_ids-nil : (D : Type 0) (type key : Bytes) → block_ids {D = D} type key no_items ≡ []
unfolding block_ids
block_ids-nil D type key = refl

module _ (d : Doubles) where
  open d use {Double}

  -- What the object of a block shows of it.
  abbrev Shows : Block → Option (Json Double) → Type 0
  Shows b none = Unit
  Shows b (some v) =
      (get_text (some v) (codes "type") ≡ some b.type)
      × (is_tool_use b ≡ true → get_text (some v) (codes "id") ≡ some b.id)

  tool_use_object-Shows :
      (b : Block) (input : Option (Json Double)) → Shows b (tool_use_object d b input)
  unfolding tool_use_object typed add_string_to_object append_field get_text get_object_item
      find_field get_string_value equal
  tool_use_object-Shows b none = tt
  tool_use_object-Shows b (some input) = (refl, λ used. refl)

  block_object-Shows : (b : Block) → Shows b (block_object d b)
  unfolding block_object typed add_string_to_object append_field get_text get_object_item find_field
      get_string_value equal
  block_object-Shows b =
      if-split (Shows b) (equal b.type (codes "text"))
        (λ text. (refl, λ used. absurd (not_both b.type text used)))
        (λ other.
          if-split (Shows b) (equal b.type (codes "tool_use"))
            (λ used. tool_use_object-Shows b (usable d (block_input d b)))
            (λ unused. (refl, λ used. absurd (ground arith))))

  -- What the objects of blocks show of them.
  abbrev pub ShowsIds : List Block → Option (List (Json Double)) → Type 0
  ShowsIds bs none = Unit
  ShowsIds bs (some vs) = block_ids (codes "tool_use") (codes "id") (from_list vs) ≡ ids_of bs

  ShowsIds-skip :
      (b : Block) (bs : List Block) (vs : Option (List (Json Double)))
      → is_tool_use b ≡ false
      → ShowsIds bs vs
      → ShowsIds (b ∷ bs) vs
  ShowsIds-skip b bs none h same = tt
  ShowsIds-skip b bs (some vs) h same = rw h same

  ShowsIds-cons :
      (b : Block) (bs : List Block) (v : Option (Json Double)) (vs : Option (List (Json Double)))
      → Shows b v
      → ShowsIds bs vs
      → ShowsIds (b ∷ bs) (cons_object d v vs)
  unfolding block_ids
  ShowsIds-cons b bs none vs hv hs = tt
  ShowsIds-cons b bs (some v) none hv hs = tt
  ShowsIds-cons b bs (some v) (some vs) hv hs = elim (Bool-cases (is_tool_use b)) [
    | inl used ↦ rw (hv.0, used, hv.1 used, hs)
    | inr other ↦ rw (hv.0, other, hs)
  ]

  pub objects_of-ShowsIds : (bs : List Block) → ShowsIds bs (objects_of d bs)
  unfolding objects_of
  objects_of-ShowsIds [] = block_ids-nil Double (codes "tool_use") (codes "id")
  objects_of-ShowsIds (b ∷ bs) =
      let rest = objects_of-ShowsIds bs in
      if-split (ShowsIds (b ∷ bs)) (equal b.type [])
        (λ empty. ShowsIds-skip b bs (objects_of d bs) (not_empty b.type empty) rest)
        (λ typed_block.
          ShowsIds-cons b bs (block_object d b) (objects_of d bs) (block_object-Shows b) rest)
