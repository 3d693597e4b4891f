-- ===== src/Main/Keeps.antt =====
-- main.c: what a turn of the user, and the whole loop, keep of the conversation and of its file.
use sa.Prelude.{ℕ, ◌≡◌, refl, Bool, List, [], ◌∷◌, ◌==◌, if-split, length}
use sa.Prelude.Bytes.{Bytes, equal, c_string}
use sa.Json.Value.{append_field, add_item_to_object, add_string_to_object}
use sa.Json.Access.{find_field, get_object_item, get_string_value, get_text}
use sa.Json.Number.{Doubles}
use sa.Session.Store.{without_newline}
use sa.Tools.Schemas.{made_tools}
use sa.Chat.Turn.{push, Environment, Chat}
use sa.Chat.Messages.{make_message, make_user_msg}
use sa.Chat.Answered.{block_ids, content_ids, message_ids, uses, Answered, Answered-append}
use sa.Chat.Results.{chat_turn-Answered}
use sa.Chat.Stored.{Stored, push-Stored, chat_turn-Stored, FilesWork}
use sa.Main.{say, then_on, repl, Input, typed, interrupt}

module _ (d : Doubles) (env : Environment d.Double) (json : Bool) (model system : Bytes) where
  open d use {Double}
  open env use {World}

  user_uses : (text : Bytes) → uses (make_user_msg {D = Double} text) ≡ []
  unfolding make_user_msg message_ids content_ids block_ids make_message add_string_to_object
      add_item_to_object append_field get_text get_object_item find_field get_string_value equal
  user_uses text = refl

  pub say-Answered :
      (text : Bytes) (s : Chat d env json)
      → Answered s.messages
      → Answered (say d env json model system text s).0.messages
  unfolding say push
  say-Answered text s h =
      chat_turn-Answered d env json model system made_tools (push d env json (make_user_msg text) s)
        (Answered-append s.messages (make_user_msg text) [] h (user_uses text))

  pub say-Stored :
      (works : FilesWork env) (text : Bytes) (s : Chat d env json)
      → Stored d env json works s
      → Stored d env json works (say d env json model system text s).0
  unfolding say
  say-Stored works text s h =
      chat_turn-Stored d env json works model system made_tools
        (push d env json (make_user_msg text) s)
        (push-Stored d env json works (make_user_msg text) s h)

  -- A property of the conversation that a turn keeps, the loop keeps.
  repl_keeps :
      (reset : World → World) (Q : Chat d env json → Type 0)
      → ((s : Chat d env json) (w : World) → Q s → Q (record s { world = w }))
      → ((text : Bytes) (s : Chat d env json) → Q s → Q (say d env json model system text s).0)
      → (inputs : List (Input World)) (s : Chat d env json) → Q s
      → Q (repl d env json model system reset inputs s).0
  unfolding repl
  repl_keeps reset Q moves says [] s h = moves s (reset s.world) h
  repl_keeps reset Q moves says (interrupt seen ∷ inputs) s h =
      repl_keeps reset Q moves says inputs (record s { world = reset (seen (reset s.world)) })
        (moves s (reset (seen (reset s.world))) h)
  repl_keeps reset Q moves says (typed seen line ∷ inputs) s h =
      let waited = record s { world = seen (reset s.world) } in
      let text = without_newline (c_string line) in
      let k = moves s (seen (reset s.world)) h in
      let said = says text waited k in
      if-split (λ (e : Chat d env json × ℕ). Q e.0) (length text == 0)
        (λ _. repl_keeps reset Q moves says inputs waited k)
        (λ _.
          on_said (say d env json model system text waited) said
            (λ s' h'. repl_keeps reset Q moves says inputs s' h'))
    where
      on_said :
          (e : Chat d env json × ℕ)
          → Q e.0
          → ((s' : Chat d env json) → Q s' → Q (repl d env json model system reset inputs s').0)
          → Q (then_on d env json model system e (repl d env json model system reset inputs)).0
      on_said (s', code) h' later =
          if-split (λ (e : Chat d env json × ℕ). Q e.0) (code == 1) (λ _. h') (λ _. later s' h')

  -- Whatever is typed and whatever the world does: where every tool use had its result in the next
  -- message at the start of the loop, it has at its end.
  pub repl-Answered :
      (reset : World → World) (inputs : List (Input World)) (s : Chat d env json)
      → Answered s.messages
      → Answered (repl d env json model system reset inputs s).0.messages
  repl-Answered reset inputs s h =
      repl_keeps reset (λ s. Answered s.messages) (λ s w k. k) say-Answered inputs s h

  -- Where the system calls on the session file succeed: if it has a line for each message of the
  -- conversation at the start of the loop, and no other, so it has at its end, whatever is typed,
  -- whatever the endpoint and the tools answer, and however often the conversation was compacted.
  pub repl-Stored :
      (works : FilesWork env) (reset : World → World) (inputs : List (Input World))
      (s : Chat d env json)
      → Stored d env json works s
      → Stored d env json works (repl d env json model system reset inputs s).0
  repl-Stored works reset inputs s h =
      repl_keeps reset (Stored d env json works) (λ s w k. k) (say-Stored works) inputs s h
