-- ===== src/Chat/Results.antt =====
-- main.c: `chat_turn` answers every tool use, whatever the server and the tools do.
use sa.Prelude.{
  ◌≡◌, refl, inl, inr, Bool, false, some, List, [], ◌∷◌, Bool-cases, true, ℕ, zero, suc, sym, ◌∙◌,
  Option, none, ◌++◌, append_assoc, ltb, if-split, take,
}
use sa.Prelude.Bytes.{Bytes, codes, equal}
use sa.Config.{max_tool_iter}
use sa.Json.Value.{from_list, append_field, add_string_to_object, array, Items, item, Json}
use sa.Json.Number.{Doubles}
use sa.Json.Access.{find_field, get_object_item, get_string_value, get_text}
use sa.Stream.State.{Block, StreamState}
use sa.Stream.Content.{objects_of, blocks_to_content}
use sa.Session.Compact.{compact_clear_tool_results}
use sa.Chat.Answer.{Outcome, answered, refused, stopped, overflowed}
use sa.Chat.Messages.{is_tool_use, make_message, tool_result, has_tool_use, Next, return, continue}
use sa.Chat.Turn.{
  call_tool, run_tools, Environment, push, on_overflow, on_content, on_answer, on_outcome,
  turn_round, turn_rounds, chat_turn, Chat,
}
use sa.Chat.Uses.{ids_of, block_ids-nil, ids_of-none, ShowsIds, objects_of-ShowsIds}
use sa.Chat.Answered.{
  block_ids, content_ids, message_ids, uses, results, Answered, Answered-append, compact-Answered,
}

module _ {D : Type 0} where
  result_answers :
      (b : Block) (out : Bytes) (vs : Items D)
      → block_ids (codes "tool_result") (codes "tool_use_id") (item (tool_result b out) vs)
        ≡ some b.id ∷ block_ids (codes "tool_result") (codes "tool_use_id") vs
  unfolding block_ids tool_result add_string_to_object append_field get_text get_object_item
      find_field get_string_value equal
  result_answers b out vs = refl

  result_uses :
      (b : Block) (out : Bytes) (vs : Items D)
      → block_ids (codes "tool_use") (codes "id") (item (tool_result b out) vs)
        ≡ block_ids (codes "tool_use") (codes "id") vs
  unfolding block_ids tool_result add_string_to_object append_field get_text get_object_item
      find_field get_string_value equal
  result_uses b out vs = refl

  message_ids-make_message :
      (type key role : Bytes) (xs : Items D)
      → message_ids type key (make_message role (array xs)) ≡ block_ids type key xs
  unfolding message_ids content_ids make_message add_string_to_object append_field get_object_item
      find_field equal
  message_ids-make_message type key role xs = refl

module _ (d : Doubles) (env : Environment d.Double) (json : Bool) where
  open d use {Double}
  open env use {World, is_interrupted, http_post, dispatch_tool, opens, rewrites}

  run_tools_used :
      (w : World) (b : Block) (bs : List Block)
      → is_tool_use b ≡ true
      → let called = call_tool d env json w b in
        (run_tools d env json w (b ∷ bs)).1
        ≡ tool_result b called.1 ∷ (run_tools d env json called.0 bs).1
  unfolding run_tools
  run_tools_used w b bs h = rw h

  run_tools_other :
      (w : World) (b : Block) (bs : List Block)
      → is_tool_use b ≡ false
      → run_tools d env json w (b ∷ bs) ≡ run_tools d env json w bs
  unfolding run_tools
  run_tools_other w b bs h = rw h

  run_tools-nil : (w : World) → run_tools d env json w [] ≡ (w, [])
  unfolding run_tools
  run_tools-nil w = refl

  -- The results, in order, answer the tool uses among the blocks.
  run_tools-ids :
      (w : World) (bs : List Block)
      → block_ids
          (codes "tool_result")
          (codes "tool_use_id")
          (from_list (run_tools d env json w bs).1)
        ≡ ids_of bs
  run_tools-ids w [] =
      rw (run_tools-nil w) (block_ids-nil Double (codes "tool_result") (codes "tool_use_id"))
  run_tools-ids w (b ∷ bs) = elim (Bool-cases (is_tool_use b)) [
    | inl used ↦
        let called = call_tool d env json w b in
        rw (run_tools_used w b bs used, result_answers b called.1, run_tools-ids called.0 bs, used)
    | inr other ↦ rw (run_tools_other w b bs other, run_tools-ids w bs, other)
  ]

  -- A result is not a tool use.
  run_tools-uses :
      (w : World) (bs : List Block)
      → block_ids (codes "tool_use") (codes "id") (from_list (run_tools d env json w bs).1) ≡ []
  run_tools-uses w [] = rw (run_tools-nil w) (block_ids-nil Double (codes "tool_use") (codes "id"))
  run_tools-uses w (b ∷ bs) = elim (Bool-cases (is_tool_use b)) [
    | inl used ↦
        let called = call_tool d env json w b in
        rw (run_tools_used w b bs used, result_uses b called.1, run_tools-uses called.0 bs)
    | inr other ↦ rw (run_tools_other w b bs other, run_tools-uses w bs)
  ]

  -- The messages after a push.
  messages-push :
      (m : Json Double) (s : Chat d env json)
      → (push d env json m s).messages ≡ s.messages ++ m ∷ []
  unfolding push
  messages-push m s = refl

  abbrev IsAnswered : Chat d env json × Next → Type 0
  IsAnswered r = Answered r.0.messages

  content_uses :
      (role : Bytes) (vs : List (Json Double)) (bs : List Block)
      → ShowsIds d bs (some vs)
      → uses (make_message role (array (from_list vs))) ≡ ids_of bs
  content_uses role vs bs h =
      message_ids-make_message (codes "tool_use") (codes "id") role (from_list vs) ∙ h

  -- An answer with its results, or an answer without tool uses.
  on_content-Answered :
      (s : Chat d env json) (bs : List Block) (vs : List (Json Double))
      → ShowsIds d bs (some vs)
      → Answered s.messages
      → IsAnswered (on_content d env json s bs (array (from_list vs)))
  unfolding on_content push
  on_content-Answered s bs vs shows h =
      let assist = make_message (codes "assistant") (array (from_list vs)) in
      let said = push d env json assist s in
      let called = run_tools d env json said.world bs in
      let answer = make_message (codes "user") (array (from_list called.1)) in
      let used : uses assist ≡ ids_of bs = content_uses (codes "assistant") vs bs shows in
      let results_match : results answer ≡ ids_of bs =
        message_ids-make_message (codes "tool_result") (codes "tool_use_id") (codes "user")
          (from_list called.1)
        ∙ run_tools-ids said.world bs in
      let no_uses : uses answer ≡ [] =
        message_ids-make_message (codes "tool_use") (codes "id") (codes "user") (from_list called.1)
        ∙ run_tools-uses said.world bs in
      if-split IsAnswered (has_tool_use bs)
        (λ some_used. rw append_assoc (
          Answered-append s.messages assist (answer ∷ []) h
            (inr (used ∙ sym results_match), no_uses)))
        (λ none_used. Answered-append s.messages assist [] h (used ∙ ids_of-none bs none_used))

  on_overflow-Answered :
      (s : Chat d env json) → Answered s.messages → IsAnswered (on_overflow d env json s)
  unfolding on_overflow
  on_overflow-Answered s h =
      let kept = compact-Answered s.messages 10 h in
      if-split IsAnswered (ltb 0 (compact_clear_tool_results s.messages 10).1)
        (λ some_cleared. kept) (λ none_cleared. kept)

  on_objects-Answered :
      (s : Chat d env json) (bs : List Block) (vs : Option (List (Json Double)))
      → ShowsIds d bs vs
      → Answered s.messages
      → IsAnswered (
          on_answer d env json s bs
            (elim vs [ none ↦ none | some ws ↦ some (array (from_list ws)) ]))
  on_objects-Answered s bs none shows h = h
  on_objects-Answered s bs (some vs) shows h = on_content-Answered s bs vs shows h

  on_outcome-Answered :
      (s : Chat d env json) (st : StreamState) (o : Outcome)
      → Answered s.messages
      → IsAnswered (on_outcome d env json s st o)
  unfolding blocks_to_content
  on_outcome-Answered s st overflowed h = on_overflow-Answered s h
  on_outcome-Answered s st stopped h = h
  on_outcome-Answered s st refused h = h
  on_outcome-Answered s st answered h =
      let bs = take st.n st.blocks in
      on_objects-Answered s bs (objects_of d bs) (objects_of-ShowsIds d bs) h

  turn_round-Answered :
      (ask : List (Json Double) → Bytes) (s : Chat d env json)
      → Answered s.messages
      → IsAnswered (turn_round d env json ask s)
  unfolding turn_round
  turn_round-Answered ask s h =
      if-split IsAnswered (is_interrupted s.world) (λ stopped_now. h)
        (λ goes_on. on_outcome-Answered _ _ _ h)

  turn_rounds-Answered :
      (n : ℕ) (ask : List (Json Double) → Bytes) (s : Chat d env json)
      → Answered s.messages
      → Answered (turn_rounds d env json n ask s).0.messages
  unfolding turn_rounds
  turn_rounds-Answered zero ask s h = h
  turn_rounds-Answered (suc n) ask s h =
      let first = turn_round d env json ask s in
      next first.0 first.1 (turn_rounds-Answered n ask first.0) (turn_round-Answered ask s h)
    where
      next :
          (s' : Chat d env json) (how : Next)
          → (Answered s'.messages → Answered (turn_rounds d env json n ask s').0.messages)
          → Answered s'.messages
          → let end : Chat d env json × ℕ = elim how [
            | return code ↦ (s', code)
            | continue ↦ turn_rounds d env json n ask s'
          ] in
            Answered end.0.messages
      next s' (return code) later h' = h'
      next s' continue later h' = later h'

  -- Whatever the server sends, the tools return and the system calls do, and with whichever value the
  -- turn returns: if every tool use of the conversation had its result in the next message before
  -- the turn, under the same ids in the same order, so it has after it.
  pub chat_turn-Answered :
      (model system : Bytes) (tools : List (Json Double)) (s : Chat d env json)
      → Answered s.messages
      → Answered (chat_turn d env json model system tools s).0.messages
  unfolding chat_turn
  chat_turn-Answered model system tools s h = turn_rounds-Answered max_tool_iter _ s h
