-- ===== src/Chat/Turn.antt =====
-- main.c: `chat_turn`. What the rest of the system does is a parameter: the
-- network, the tools, the session file's system calls and the signal.
use sa.Prelude.{
  Bool, Option, List, ℕ, zero, suc, true, none, some, [], ◌∷◌, ◌++◌, ltb, if◌then◌else◌, length,
  take,
}
use sa.Prelude.Bytes.{Bytes, codes}
use sa.Prelude.Int.{pos}
use sa.Config.{max_tool_iter}
use sa.Json.Value.{
  Json, from_list, add_item_to_object, add_string_to_object, add_bool_to_object,
  add_number_to_object, array, object, no_fields,
}
use sa.Json.Number.{Doubles}
use sa.Json.Printer.{print_value}
use sa.Json.Parser.{parse}
use sa.Stream.State.{Block, StreamState}
use sa.Stream.Content.{blocks_to_content}
use sa.Session.Store.{Files, RewriteCalls, session_append, session_rewrite}
use sa.Session.Compact.{compact_clear_tool_results}
use sa.Http.Post.{Post}
use sa.Chat.Messages.{is_tool_use, has_tool_use, make_message, tool_result, Next, return, continue}
use sa.Chat.Answer.{do_turn, Outcome, answered, stopped, overflowed, refused}

-- The parts around a turn, over the state of everything outside.
pub record Environment (Double : Type 0) : Type 1 where
  pub World : Type 0
  -- `g_interrupt`.
  pub is_interrupted : World → Bool
  pub http_post : World → Bytes → World × Post
  pub dispatch_tool : World → Bytes → Option (Json Double) → World × Bytes
  -- How the system calls of `session_append` and `session_rewrite` end.
  pub opens : World → Bool
  pub rewrites : World → RewriteCalls

module _ (d : Doubles) (env : Environment d.Double) (json : Bool) where
  open d use {Double, of_int}
  open env use {World, is_interrupted, http_post, dispatch_tool, opens, rewrites}

  -- The messages, the session file, and what went to stdout.
  pub record Chat : Type 0 where
    pub world : World
    pub messages : List (Json Double)
    pub files : Files
    pub out : Bytes

  unfoldable pub request :
      (model system : Bytes) → (messages tools : List (Json Double)) → Json Double
  request model system messages tools =
      let named = add_string_to_object (object no_fields) (codes "model") model in
      let bounded = add_number_to_object named (codes "max_tokens") (of_int (pos 4096)) in
      let prompted = add_string_to_object bounded (codes "system") system in
      let asked = add_item_to_object prompted (codes "messages") (array (from_list messages)) in
      let equipped = add_item_to_object asked (codes "tools") (array (from_list tools)) in
      add_bool_to_object equipped (codes "stream") true

  -- `cJSON_AddItemToArray(messages, msg); session_append(msg)`.
  unfoldable pub push : Json Double → Chat → Chat
  push m s =
      let stored = session_append d json (opens s.world) s.files m in
      record s { messages = s.messages ++ m ∷ []; files = stored.0; out = s.out ++ stored.1 }

  unfoldable pub call_tool : World → Block → World × Bytes
  call_tool w b =
      dispatch_tool w b.name (parse d (if ltb 0 (length b.partial) then b.partial else codes "{}"))

  -- The loop over the blocks.
  unfoldable pub run_tools : World → List Block → World × List (Json Double)
  run_tools w [] = (w, [])
  run_tools w (b ∷ bs) =
      let called = call_tool w b in
      let after = run_tools called.0 bs in
      let skipped = run_tools w bs in
      if is_tool_use b then (after.0, tool_result b called.1 ∷ after.1) else skipped

  -- Compaction after the context was too long.
  unfoldable pub on_overflow : Chat → Chat × Next
  on_overflow s =
      let compacted = compact_clear_tool_results s.messages 10 in
      let shorter = record s { messages = compacted.0 } in
      if ltb 0 compacted.1
      then (
        record shorter { files = session_rewrite d (rewrites s.world) s.files compacted.0 },
        continue,
      )
      else (shorter, return 1)

  -- What follows an answer with this content, whose blocks are these.
  unfoldable pub on_content : Chat → List Block → Json Double → Chat × Next
  on_content s blocks content =
      let said = push (make_message (codes "assistant") content) s in
      if has_tool_use blocks
      then (let called = run_tools said.world blocks in
          (
            push (make_message (codes "user") (array (from_list called.1)))
                (record said { world = called.0 }),
            continue,
          ))
      else (said, return 0)

  abbrev pub on_answer : Chat → List Block → Option (Json Double) → Chat × Next
  on_answer s blocks none = (s, return 2)
  on_answer s blocks (some content) = on_content s blocks content

  abbrev pub on_outcome : Chat → StreamState → Outcome → Chat × Next
  on_outcome s st overflowed = on_overflow s
  on_outcome s st stopped = (s, return 130)
  on_outcome s st refused = (s, return 1)
  on_outcome s st answered = on_answer s (take st.n st.blocks) (blocks_to_content d st)

  -- One round of the loop. `ask` is the request for the messages.
  unfoldable pub turn_round : (List (Json Double) → Bytes) → Chat → Chat × Next
  turn_round ask s =
      let posted = http_post s.world (ask s.messages) in
      let post = posted.1 in
      let heard = record s { world = posted.0; out = s.out ++ (post.out ++ b'\n' ∷ []) } in
      if is_interrupted s.world
      then (s, return 130)
      else on_outcome heard post.state (do_turn d (is_interrupted posted.0) post)

  unfoldable pub turn_rounds : ℕ → (List (Json Double) → Bytes) → Chat → Chat × ℕ
  turn_rounds zero ask s = (s, 0)
  turn_rounds (suc n) ask s =
      let first = turn_round ask s in
      elim first.1 [ return code ↦ (first.0, code) | continue ↦ turn_rounds n ask first.0 ]

  -- The state after the turn, and the return value.
  unfoldable pub chat_turn : (model system : Bytes) → (tools : List (Json Double)) → Chat → Chat × ℕ
  chat_turn model system tools s =
      turn_rounds max_tool_iter (λ messages. print_value d (request model system messages tools)) s
