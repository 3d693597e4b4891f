-- ===== src/Session/Prune/Reference.antt =====
-- main.c: what `session_prune_empty_tool_use` computes, without indices.
use sa.Prelude.{
  ℕ, zero, suc, ◌<◌, ◌≡◌, some, List, [], ◌∷◌, ◌++◌, arith, if◌then◌else◌, length, take, drop, ◌≤◌,
  refl, ap, true, false, All, ◌+◌, ◌∙◌, Bool, Option, none, if-split, get_elem?,
}
use sa.Json.Value.{Json}
use sa.Json.Access.{get_object_item, get_string_value, is_array, get_text}
use sa.Session.Prune.{
  delete_item, poisoned, is_result, prune_at, only_block, prune_below, session_prune_empty_tool_use,
}

poisoned-none : (D : Type 0) → poisoned {D = D} none ≡ false
unfolding poisoned get_text get_object_item get_string_value
poisoned-none D = refl

is_result-none : (D : Type 0) → is_result {D = D} none ≡ false
unfolding is_result only_block get_text get_object_item get_string_value is_array
is_result-none D = refl

module _ {D : Type 0} where
  -- The first message goes if it is a tool result.
  abbrev pub without_result : List (Json D) → List (Json D)
  without_result [] = []
  without_result (m ∷ ms) = if is_result (some m) then ms else m ∷ ms

  -- The broken turns, each with the result that follows it, are left out.
  unfoldable pub healed : List (Json D) → List (Json D)
  healed [] = []
  healed (m ∷ ms) =
      let rest = healed ms in if poisoned (some m) then without_result rest else m ∷ rest

  -- A message in front of the index takes no part.
  prune_at-suc :
      (i : ℕ) (m : Json D) (ms : List (Json D)) (r : ℕ)
      → (prune_at (suc i) (m ∷ ms, r)).0 ≡ m ∷ (prune_at i (ms, r)).0
  unfolding prune_at delete_item
  prune_at-suc i m ms r = ground arith

  -- The message at the index, in front of messages that are healed.
  prune_at_first :
      (m : Json D) (zs : List (Json D)) (r : ℕ)
      → (prune_at 0 (m ∷ zs, r)).0 ≡ (if poisoned (some m) then without_result zs else m ∷ zs)
  unfolding prune_at delete_item is_result only_block get_object_item is_array get_text
      get_string_value
  prune_at_first m [] r = ground arith
  prune_at_first m (z ∷ zs) r = ground arith

  prune_at-healed_zero :
      (m : Json D) (ms : List (Json D)) (r : ℕ)
      → (prune_at 0 (m ∷ healed ms, r)).0 ≡ healed (m ∷ ms)
  unfolding healed
  prune_at-healed_zero m ms r = prune_at_first m (healed ms) r

  -- One round, where the messages behind the index are healed.
  prune_at-healed :
      (i : ℕ) (ms : List (Json D)) (r : ℕ)
      → i < length ms
      → (prune_at i (take (suc i) ms ++ healed (drop (suc i) ms), r)).0
        ≡ take i ms ++ healed (drop i ms)
  prune_at-healed i [] r h = absurd (omega arith)
  prune_at-healed zero (m ∷ ms) r h = prune_at-healed_zero m ms r
  prune_at-healed (suc i) (m ∷ ms) r h =
      rw (prune_at-suc i m _ r, prune_at-healed i ms r (omega arith))

  prune_below-healed :
      (i : ℕ) (ms : List (Json D)) (s : List (Json D) × ℕ)
      → i ≤ length ms
      → s.0 ≡ take i ms ++ healed (drop i ms)
      → (prune_below i s).0 ≡ healed ms
  unfolding prune_below
  prune_below-healed zero ms s h e = e
  prune_below-healed (suc i) ms (zs, r) h e =
      prune_below-healed i ms (prune_at i (zs, r)) (omega arith)
        (rw e (prune_at-healed i ms r (omega arith)))

  healed-nil : (ms : List (Json D)) → ms ≡ take (length ms) ms ++ healed (drop (length ms) ms)
  unfolding healed
  healed-nil [] = refl
  healed-nil (m ∷ ms) = ap (◌∷◌ m) (healed-nil ms)

  -- The loop over the indices leaves out the broken turns, each with the tool result behind it, and
  -- nothing else.
  pub prune-healed : (ms : List (Json D)) → (session_prune_empty_tool_use ms).0 ≡ healed ms
  unfolding session_prune_empty_tool_use
  prune-healed ms = prune_below-healed (length ms) ms (ms, 0) (omega arith) (healed-nil ms)

  abbrev pub IsSound : Json D → Type 0
  IsSound m = poisoned (some m) ≡ false

  All-without_result : (ms : List (Json D)) → All IsSound ms → All IsSound (without_result ms)
  All-without_result [] h = tt
  All-without_result (m ∷ ms) h =
      if-split (All IsSound) (is_result (some m)) (λ taken. h.1) (λ kept. h)

  healed-IsSound : (ms : List (Json D)) → All IsSound (healed ms)
  unfolding healed
  healed-IsSound [] = tt
  healed-IsSound (m ∷ ms) =
      let rest = healed-IsSound ms in
      if-split (All IsSound) (poisoned (some m)) (λ broken. All-without_result (healed ms) rest)
        (λ sound. (sound, rest))

  -- After the repair no message is an assistant's single tool use without input.
  pub prune-IsSound : (ms : List (Json D)) → All IsSound (session_prune_empty_tool_use ms).0
  prune-IsSound ms = rw (prune-healed ms) (healed-IsSound ms)

  healed_sound : (ms : List (Json D)) → All IsSound ms → healed ms ≡ ms
  unfolding healed
  healed_sound [] h = refl
  healed_sound (m ∷ ms) h = rw (h.0, healed_sound ms h.1)

  -- A second repair changes nothing.
  pub prune_twice :
      (ms : List (Json D))
      → (session_prune_empty_tool_use (session_prune_empty_tool_use ms).0).0
        ≡ (session_prune_empty_tool_use ms).0
  prune_twice ms =
      let once = (session_prune_empty_tool_use ms).0 in
      prune-healed once ∙ healed_sound once (prune-IsSound ms)

  length-delete_item :
      (ms : List (Json D)) (i : ℕ) → i < length ms → suc (length (delete_item ms i)) ≡ length ms
  unfolding delete_item
  length-delete_item [] i h = absurd (omega arith)
  length-delete_item (m ∷ ms) zero h = refl
  length-delete_item (m ∷ ms) (suc i) h = ap suc (length-delete_item ms i (omega arith))

  in_range :
      (p : Option (Json D) → Bool) (ms : List (Json D)) (i : ℕ)
      → p none ≡ false
      → p (get_elem? ms i) ≡ true
      → i < length ms
  in_range p [] i n h = absurd (ground arith)
  in_range p (m ∷ ms) zero n h = omega arith
  in_range p (m ∷ ms) (suc i) n h = omega (arith, in_range p ms i n h)

  deletes :
      (p : Option (Json D) → Bool) (ms : List (Json D)) (i : ℕ)
      → p none ≡ false
      → p (get_elem? ms i) ≡ true
      → suc (length (delete_item ms i)) ≡ length ms
  deletes p ms i n h = length-delete_item ms i (in_range p ms i n h)

  abbrev Counted : ℕ → List (Json D) × ℕ → Type 0
  Counted total s = length s.0 + s.1 ≡ total

  prune_at-Counted :
      (i : ℕ) (total : ℕ) (s : List (Json D) × ℕ) → Counted total s → Counted total (prune_at i s)
  unfolding prune_at
  prune_at-Counted i total (ms, r) h =
      if-split (Counted total) (poisoned (get_elem? ms i))
        (λ broken.
          let one = deletes poisoned ms i (poisoned-none D) broken in
          if-split (Counted total) (is_result (get_elem? (delete_item ms i) i))
            (λ paired.
              omega (arith, one, deletes is_result (delete_item ms i) i (is_result-none D) paired))
            (λ alone. omega (arith, one)))
        (λ sound. h)

  prune_below-Counted :
      (i : ℕ) (total : ℕ) (s : List (Json D) × ℕ)
      → Counted total s
      → Counted total (prune_below i s)
  unfolding prune_below
  prune_below-Counted zero total s h = h
  prune_below-Counted (suc i) total s h =
      prune_below-Counted i total (prune_at i s) (prune_at-Counted i total s h)

  -- The count that is returned is the number of messages that are gone.
  pub prune_counts :
      (ms : List (Json D))
      → length (session_prune_empty_tool_use ms).0 + (session_prune_empty_tool_use ms).1 ≡ length ms
  unfolding session_prune_empty_tool_use
  prune_counts ms = prune_below-Counted (length ms) (length ms) (ms, 0) (omega arith)
