-- ===== src/Json/Total.antt =====
-- tinyjson.h: the parser's loops end. The fuel of `parse_text` suffices for every input, and what a
-- call leaves is shorter than what it was given.
pub mod Strings
use sa.Prelude.{
  ℕ, zero, suc, ◌≤◌, ◌<◌, [], ◌∷◌, arith, leb, ◌==◌, length, length-drop, ◌+◌, ◌*◌, ◌||◌,
}
use sa.Prelude.Bytes.{Bytes, codes, starts_with, c_string}
use sa.Prelude.Decimal.{is_digit}
use sa.Json.Value.{Json, string, array, object, Items, item, Fields, field}
use sa.Json.Number.{Doubles}
use sa.Json.Parser.{
  skip_ws, parse_string_raw, number_text, expect_colon, parse_number, parse_literal, Result,
  parse_string, parse_at, array_from, parse_array, object_from, parse_object, after_element,
  after_member, parse_value, parse_elements, parse_members, parse_text,
}
use sa.Json.Total.Strings.{
  Within, Within-map_value, Within-bind, Within-mono, Within-if, length-skip_ws,
  parse_string_raw-Within, length-starts_with, expect_colon-Within,
}

module _ (d : Doubles) where
  open d use {Double}

  parse_literal-Within : (s : Bytes) → Within (length s) (parse_literal d s)
  unfolding parse_literal
  parse_literal-Within s =
      Within-if _ (starts_with (codes "true") s) _ _
        (λ h. omega (arith, length-starts_with _ s h, length-drop 4 s))
        (λ _.
          Within-if _ (starts_with (codes "false") s) _ _
            (λ h. omega (arith, length-starts_with _ s h, length-drop 5 s))
            (λ _.
              Within-if _ (starts_with (codes "null") s) _ _
                (λ h. omega (arith, length-starts_with _ s h, length-drop 4 s)) (λ _. tt)))

  parse_number-Within : (c : ℕ) (s : Bytes) → Within (suc (length s)) (parse_number d (c ∷ s))
  unfolding parse_number
  parse_number-Within c s =
      let text = number_text (c ∷ s) in
      Within-if _ (length text == 0) _ _ (λ _. tt)
        (λ some_text.
          Within-if _ (leb 64 (length text)) _ _ (λ _. tt)
            (λ _. ground (arith, length-drop (length text) (c ∷ s))))

  -- What the parser's calls for arrays and objects need of their loops: on input of at most `n`
  -- bytes these stay within their fuel and leave less than they were given.
  abbrev LoopWithin {ℓ} : {A : Type ℓ} → ℕ → (Bytes → Result (A × Bytes)) → Type 0
  LoopWithin n loop = (s : Bytes) → length s ≤ n → Within (suc n) (loop s)

  array_from-Within :
      (n : ℕ) (elements : Bytes → Result (Items Double × Bytes)) (s : Bytes)
      → LoopWithin n elements
      → length s ≤ n
      → Within (suc n) (array_from d elements s)
  unfolding array_from
  array_from-Within n elements [] k h = Within-map_value _ array _ (k [] h)
  array_from-Within n elements (c ∷ s) k h =
      Within-if _ (c == b']') _ _ (λ _. omega arith) (λ _. Within-map_value _ array _ (k (c ∷ s) h))

  object_from-Within :
      (n : ℕ) (members : Bytes → Result (Fields Double × Bytes)) (s : Bytes)
      → LoopWithin n members
      → length s ≤ n
      → Within (suc n) (object_from d members s)
  unfolding object_from
  object_from-Within n members [] k h = Within-map_value _ object _ (k [] h)
  object_from-Within n members (c ∷ s) k h =
      Within-if _ (c == b'}') _ _ (λ _. omega arith)
        (λ _. Within-map_value _ object _ (k (c ∷ s) h))

  parse_at-Within :
      (n : ℕ) (elements : Bytes → Result (Items Double × Bytes))
      (members : Bytes → Result (Fields Double × Bytes)) (s : Bytes)
      → LoopWithin n elements
      → LoopWithin n members
      → length s ≤ suc n
      → Within (suc n) (parse_at d (parse_array d elements) (parse_object d members) s)
  unfolding parse_at parse_string parse_array parse_object
  parse_at-Within n elements members [] ka ko h = tt
  parse_at-Within n elements members (c ∷ s) ka ko h =
      let below : length (skip_ws s) ≤ n = omega (arith, length-skip_ws s) in
      Within-if _ (c == b'"') _ _
        (λ _. Within-map_value _ string _ (Within-mono _ _ _ h (parse_string_raw-Within (c ∷ s))))
        (λ _.
          Within-if _ (c == b'{') _ _
            (λ _.
              Within-if _ (c == b'{') _ _ (λ _. object_from-Within n members _ ko below) (λ _. tt))
            (λ _.
              Within-if _ (c == b'[') _ _
                (λ _.
                  Within-if _ (c == b'[') _ _ (λ _. array_from-Within n elements _ ka below)
                    (λ _. tt))
                (λ _.
                  Within-if _ (c == b'-' || is_digit c) _ _
                    (λ _. Within-mono _ _ _ h (parse_number-Within c s))
                    (λ _. Within-mono _ _ _ h (parse_literal-Within (c ∷ s))))))

  after_element-Within :
      (n : ℕ) (elements : Bytes → Result (Items Double × Bytes)) (v : Json Double) (s : Bytes)
      → LoopWithin n elements
      → length s ≤ suc n
      → Within (suc n) (after_element d elements v s)
  unfolding after_element
  after_element-Within n elements v [] k h = tt
  after_element-Within n elements v (c ∷ s) k h =
      Within-if _ (c == b',') _ _ (λ _. Within-map_value _ (item v) _ (k s (omega arith)))
        (λ _. Within-if _ (c == b']') _ _ (λ _. omega arith) (λ _. tt))

  -- The same, with a loop that runs on whatever is shorter than `n` bytes.
  after_element-Within' :
      (n : ℕ) (elements : Bytes → Result (Items Double × Bytes)) (v : Json Double) (s : Bytes)
      → ((m : ℕ) (r : Bytes) → m < n → length r ≤ m → Within (suc m) (elements r))
      → length s < n
      → Within (suc n) (after_element d elements v s)
  after_element-Within' zero elements v s k h = absurd (omega arith)
  after_element-Within' (suc n) elements v s k h =
      Within-mono (suc n) _ _ (omega arith)
        (after_element-Within n elements v s (λ r below. k n r (omega arith) below) (omega arith))

  after_member-Within :
      (n : ℕ) (members : Bytes → Result (Fields Double × Bytes)) (j : Bytes) (v : Json Double)
      (s : Bytes)
      → LoopWithin n members
      → length s ≤ suc n
      → Within (suc n) (after_member d members j v s)
  unfolding after_member
  after_member-Within n members j v [] k h = tt
  after_member-Within n members j v (c ∷ s) k h =
      Within-if _ (c == b',') _ _ (λ _. Within-map_value _ (field j v) _ (k s (omega arith)))
        (λ _. Within-if _ (c == b'}') _ _ (λ _. omega arith) (λ _. tt))

  after_member-Within' :
      (n : ℕ) (members : Bytes → Result (Fields Double × Bytes)) (j : Bytes) (v : Json Double)
      (s : Bytes)
      → ((m : ℕ) (r : Bytes) → m < n → length r ≤ m → Within (suc m) (members r))
      → length s < n
      → Within (suc n) (after_member d members j v s)
  after_member-Within' zero members j v s k h = absurd (omega arith)
  after_member-Within' (suc n) members j v s k h =
      Within-mono (suc n) _ _ (omega arith)
        (after_member-Within n members j v s (λ r below. k n r (omega arith) below) (omega arith))

  parse_at-nothing :
      (a o : Bytes → Result (Json Double × Bytes)) (s : Bytes)
      → length s ≤ 0
      → Within 0 (parse_at d a o (skip_ws s))
  unfolding parse_at skip_ws
  parse_at-nothing a o [] h = tt
  parse_at-nothing a o (c ∷ s) h = absurd (omega arith)

  mutual
    unfolding parse_value

    parse_value-Within :
        (fuel n : ℕ) (s : Bytes) → length s ≤ n → 2 * n < fuel → Within n (parse_value d fuel s)
    parse_value-Within zero n s h enough = absurd (omega arith)
    parse_value-Within (suc fuel) zero s h enough =
        parse_at-nothing (parse_array d (parse_elements d fuel))
          (parse_object d (parse_members d fuel)) s h
    parse_value-Within (suc fuel) (suc n) s h enough =
        parse_at-Within n (parse_elements d fuel) (parse_members d fuel) (skip_ws s)
          (λ r below. parse_elements-Within fuel n r below (omega arith))
          (λ r below. parse_members-Within fuel n r below (omega arith))
          (omega (arith, length-skip_ws s))

    parse_elements-Within :
        (fuel n : ℕ) (s : Bytes)
        → length s ≤ n
        → 2 * n + 1 < fuel
        → Within (suc n) (parse_elements d fuel s)
    parse_elements-Within zero n s h enough = absurd (omega arith)
    parse_elements-Within (suc fuel) n s h enough =
        Within-bind (suc n) n (parse_value d fuel (skip_ws s)) _
          (parse_value-Within fuel n (skip_ws s) (omega (arith, length-skip_ws s)) (omega arith))
          (λ v rest below.
            after_element-Within' n (parse_elements d fuel) v (skip_ws rest)
              (λ m r lower shorter. parse_elements-Within fuel m r shorter (omega arith))
              (omega (arith, length-skip_ws rest)))

    parse_members-Within :
        (fuel n : ℕ) (s : Bytes)
        → length s ≤ n
        → 2 * n + 1 < fuel
        → Within (suc n) (parse_members d fuel s)
    parse_members-Within zero n s h enough = absurd (omega arith)
    parse_members-Within (suc fuel) n s h enough =
        let before_key : length (skip_ws s) ≤ n = omega (arith, length-skip_ws s) in
        Within-bind (suc n) n (parse_string_raw (skip_ws s)) _
          (Within-mono _ n _ before_key (parse_string_raw-Within (skip_ws s)))
          (λ k after_key below_key.
            let before_colon : length (skip_ws after_key) ≤ n =
              omega (arith, length-skip_ws after_key) in
            Within-bind (suc n) n (expect_colon (skip_ws after_key)) _
              (Within-mono _ n _ before_colon (expect_colon-Within (skip_ws after_key)))
              (λ _ after_colon below_colon.
                Within-bind (suc n) n (parse_value d fuel (skip_ws after_colon)) _
                  (parse_value-Within fuel n (skip_ws after_colon)
                    (omega (arith, length-skip_ws after_colon)) (omega arith))
                  (λ v rest below.
                    after_member-Within' n (parse_members d fuel) k v (skip_ws rest)
                      (λ m r lower shorter. parse_members-Within fuel m r shorter (omega arith))
                      (omega (arith, length-skip_ws rest)))))

  -- On every input the fuel that `cJSON_Parse` is modelled with suffices: the run ends in a value,
  -- with fewer bytes left than the text has, or in NULL.
  pub parse_text-Within : (s : Bytes) → Within (length (c_string s)) (parse_text d s)
  unfolding parse_text
  parse_text-Within s =
      parse_value-Within _ (length (c_string s)) (c_string s) (omega arith) (omega arith)
