-- ===== src/Main.antt =====
-- main.c: `main`: the command line, the settings, and the loop over what is typed. What the loop
-- starts from is the files, the network and the tools.
pub mod Start
pub mod Keeps
pub mod Whole
use sa.Prelude.{ℕ, Bool, List, [], ◌∷◌, ◌==◌, if◌then◌else◌, length}
use sa.Prelude.Bytes.{Bytes, c_string}
use sa.Prelude.Int.{ℤ}
use sa.Json.Number.{Doubles}
use sa.Session.Store.{without_newline}
use sa.Tools.Schemas.{made_tools}
use sa.Tools.Dispatch.{System, dispatch_tool}
use sa.Chat.Turn.{push, chat_turn, Environment, Chat}
use sa.Chat.Messages.{make_user_msg}
use sa.Http.Tls.{Tls}
use sa.Http.Post.{http_post_sse}

-- What `fgets(line, sizeof line, stdin)` comes to, with what happened outside while it waited: a
-- line, or a signal. The end of the input is the end of the list.
pub data Input (World : Type 0) : Type 0 where
  typed : (World → World) → Bytes → Input World
  interrupt : (World → World) → Input World

module _ (d : Doubles) (env : Environment d.Double) (json : Bool) (model system : Bytes) where
  open d use {Double}
  open env use {World}

  -- A message of the user, and the turn that it begins.
  unfoldable pub say : Bytes → Chat d env json → Chat d env json × ℕ
  say text s = chat_turn d env json model system made_tools (push d env json (make_user_msg text) s)

  abbrev pub then_on :
      Chat d env json × ℕ → (Chat d env json → Chat d env json × ℕ) → Chat d env json × ℕ
  then_on (s, code) on = if code == 1 then (s, 1) else on s

  -- The loop. `reset` is `g_interrupt = 0`.
  unfoldable pub repl :
      (reset : World → World) → List (Input World) → Chat d env json → Chat d env json × ℕ
  repl reset [] s = (record s { world = reset s.world }, 0)
  repl reset (interrupt seen ∷ inputs) s =
      repl reset inputs (record s { world = reset (seen (reset s.world)) })
  repl reset (typed seen line ∷ inputs) s =
      let waited = record s { world = seen (reset s.world) } in
      let text = without_newline (c_string line) in
      let rest = repl reset inputs waited in
      if length text == 0 then rest else then_on (say text waited) (repl reset inputs)

-- The parts of the program, put together: the connection and what the tools work on are the world.
abbrev pub environment :
    (tls : Tls) (d : Doubles) (system : System) (json : Bool) (atoi : Bytes → ℤ)
    (connect : Tls.Conn tls → (host port : Bytes) → Tls.Conn tls × Bool) (fuel : ℕ)
    (url api_key : Bytes)
    → Environment d.Double
environment tls d system json atoi connect fuel url api_key = record {
  World = tls.Conn × system.World;
  is_interrupted = λ w. tls.is_interrupted w.0;
  http_post = λ w body.
      let posted = http_post_sse tls d json atoi connect fuel w.0 url api_key body in
      ((posted.0, w.1), posted.1);
  dispatch_tool = λ w name input.
      let called = dispatch_tool d system w.1 name input in ((w.0, called.0), called.1);
  opens = λ w. system.opens w.1;
  rewrites = λ w. system.rewrites w.1;
}
