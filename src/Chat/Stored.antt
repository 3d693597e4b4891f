-- ===== src/Chat/Stored.antt =====
-- main.c: the session file against the conversation.
use sa.Prelude.{
  ℕ, zero, suc, ◌≡◌, refl, Bool, true, Option, none, some, List, [], ◌∷◌, ◌++◌, append_assoc,
  append-nil, arith, ltb, if-split, take,
}
use sa.Prelude.Bytes.{Bytes, codes}
use sa.Config.{max_tool_iter}
use sa.Json.Value.{from_list, Json, array}
use sa.Json.Number.{Doubles}
use sa.Session.Store.{contents, message_line, session_text, session_append, session_rewrite}
use sa.Session.Compact.{compact_clear_tool_results}
use sa.Session.Compact.Settled.{compact_nothing}
use sa.Stream.State.{Block, StreamState}
use sa.Stream.Content.{blocks_to_content}
use sa.Chat.Turn.{
  push, run_tools, on_overflow, on_content, on_answer, on_outcome, turn_round, turn_rounds,
  chat_turn, Environment, Chat,
}
use sa.Chat.Answer.{Outcome, answered, refused, stopped, overflowed}
use sa.Chat.Messages.{has_tool_use, make_message, Next, return, continue}

-- The system calls on the session file succeed.
pub record FilesWork {D : Type 0} (env : Environment D) : Type 0 where
  pub opened : (w : Environment.World env) → env.opens w ≡ true
  pub rewritten :
      (w : Environment.World env)
      → let calls = env.rewrites w in
        (calls.mkstemp ≡ true)
        × (calls.fdopen ≡ true)
        × (calls.saved ≡ true)
        × (calls.rename ≡ true)

module _ (d : Doubles) (env : Environment d.Double) (json : Bool) (works : FilesWork env) where
  open d use {Double}
  open env use {World}

  -- The file has a line for each message, in order.
  abbrev pub Stored : Chat d env json → Type 0
  Stored s = contents s.files.session ≡ session_text d s.messages

  session_text-append :
      (ms : List (Json Double)) (m : Json Double)
      → session_text d (ms ++ m ∷ []) ≡ session_text d ms ++ message_line d m
  unfolding session_text
  session_text-append [] m = append-nil (message_line d m)
  session_text-append (n ∷ ms) m = rw (session_text-append ms m, append_assoc)

  pub push-Stored :
      (m : Json Double) (s : Chat d env json) → Stored s → Stored (push d env json m s)
  unfolding push session_append
  push-Stored m s h = rw (works.opened s.world, session_text-append s.messages m, h) refl

  abbrev StoredNext : Chat d env json × Next → Type 0
  StoredNext e = Stored e.0

  on_overflow-Stored : (s : Chat d env json) → Stored s → StoredNext (on_overflow d env json s)
  unfolding on_overflow session_rewrite
  on_overflow-Stored s h =
      let compacted = compact_clear_tool_results s.messages 10 in
      let (made, opened, saved, renamed) = works.rewritten s.world in
      if-split StoredNext (ltb 0 compacted.1) (λ _. rw (made, opened, saved, renamed) refl)
        (λ few. rw (compact_nothing s.messages 10 (ground (arith, few))) h)

  on_content-Stored :
      (s : Chat d env json) (bs : List Block) (v : Json Double)
      → Stored s
      → StoredNext (on_content d env json s bs v)
  unfolding on_content
  on_content-Stored s bs v h =
      let said = push d env json (make_message (codes "assistant") v) s in
      let kept = push-Stored (make_message (codes "assistant") v) s h in
      let called = run_tools d env json said.world bs in
      if-split StoredNext (has_tool_use bs)
        (λ _.
          push-Stored (make_message (codes "user") (array (from_list called.1)))
            (record said { world = called.0 }) kept)
        (λ _. kept)

  on_answer-Stored :
      (s : Chat d env json) (bs : List Block) (v : Option (Json Double))
      → Stored s
      → StoredNext (on_answer d env json s bs v)
  on_answer-Stored s bs none h = h
  on_answer-Stored s bs (some v) h = on_content-Stored s bs v h

  on_outcome-Stored :
      (s : Chat d env json) (st : StreamState) (o : Outcome)
      → Stored s
      → StoredNext (on_outcome d env json s st o)
  on_outcome-Stored s st overflowed h = on_overflow-Stored s h
  on_outcome-Stored s st stopped h = h
  on_outcome-Stored s st refused h = h
  on_outcome-Stored s st answered h =
      on_answer-Stored s (take st.n st.blocks) (blocks_to_content d st) h

  turn_round-Stored :
      (ask : List (Json Double) → Bytes) (s : Chat d env json)
      → Stored s
      → StoredNext (turn_round d env json ask s)
  unfolding turn_round
  turn_round-Stored ask s h =
      if-split StoredNext (env.is_interrupted s.world) (λ _. h) (λ _. on_outcome-Stored _ _ _ h)

  turn_rounds-Stored :
      (n : ℕ) (ask : List (Json Double) → Bytes) (s : Chat d env json)
      → Stored s
      → Stored (turn_rounds d env json n ask s).0
  unfolding turn_rounds
  turn_rounds-Stored zero ask s h = h
  turn_rounds-Stored (suc n) ask s h =
      let first = turn_round d env json ask s in
      next first.0 first.1 (turn_rounds-Stored n ask first.0) (turn_round-Stored ask s h)
    where
      next :
          (s' : Chat d env json) (how : Next)
          → (Stored s' → Stored (turn_rounds d env json n ask s').0)
          → Stored s'
          → let end : Chat d env json × ℕ = elim how [
            | return code ↦ (s', code)
            | continue ↦ turn_rounds d env json n ask s'
          ] in
            Stored end.0
      next s' (return code) later h' = h'
      next s' continue later h' = later h'

  pub chat_turn-Stored :
      (model system : Bytes) (tools : List (Json Double)) (s : Chat d env json)
      → Stored s
      → Stored (chat_turn d env json model system tools s).0
  unfolding chat_turn
  chat_turn-Stored model system tools s h = turn_rounds-Stored max_tool_iter _ s h
