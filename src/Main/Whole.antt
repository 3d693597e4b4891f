-- ===== src/Main/Whole.antt =====
-- main.c: what a whole run of the program leaves.
use sa.Prelude.{ℕ, Bool, false, Option, none, some, List, [], ◌∷◌}
use sa.Prelude.Bytes.{Bytes, codes}
use sa.Prelude.Int.{ℤ}
use sa.Json.Number.{Doubles}
use sa.Session.Store.{Files}
use sa.Tools.Dispatch.{System}
use sa.Http.Tls.{Tls}
use sa.Prompt.Skills.{FileSystem}
use sa.Chat.Turn.{Environment, Chat}
use sa.Chat.Answered.{Answered}
use sa.Main.{environment, Input}
use sa.Main.Start.{
  options_from, endpoint_url, base_url, model_name, join_args, resume, converse, start,
  system_prompt, run, with_key, main, Options, Left,
}
use sa.Main.Keeps.{say-Answered, repl-Answered}

module _ (d : Doubles) (env : Environment d.Double) (json : Bool) (model system : Bytes) where
  open d use {Double}
  open env use {World}

  converse-Answered :
      (reset : World → World) (args : List Bytes) (inputs : List (Input World))
      (s : Chat d env json)
      → Answered s.messages
      → Answered (converse d env json model system reset args inputs s).0.messages
  unfolding converse
  converse-Answered reset [] inputs s h = repl-Answered d env json model system reset inputs s h
  converse-Answered reset (arg ∷ args) inputs s h =
      say-Answered d env json model system (join_args (arg ∷ args)) s h

  start-Answered :
      (continue_flag : Bool) (w : World) (files : Files)
      → Answered (resume d continue_flag (env.rewrites w) files).1
      → Answered (start d env json model system continue_flag w files).messages
  start-Answered continue_flag w files h = h

module _ (tls : Tls) (d : Doubles) (system : System) (atoi : Bytes → ℤ)
    (connect : Tls.Conn tls → (host port : Bytes) → Tls.Conn tls × Bool) (fuel : ℕ)
    (reset : Tls.Conn tls × System.World system → Tls.Conn tls × System.World system)
    (fs : FileSystem) (prints : Bytes → Bool) (getenv : Bytes → Option Bytes) where
  with_key-Answered :
      (key : Option Bytes) (args : List Bytes)
      (inputs : List (Input (Tls.Conn tls × System.World system)))
      (w : Tls.Conn tls × System.World system) (files : Files)
      → Answered
          (resume d
            (Options.continue_flag (options_from false false args))
            (system.rewrites w.1)
            files).1
      → Answered (
          Left.messages (
            with_key tls d system atoi connect fuel reset fs prints getenv key args inputs w files))
  unfolding run
  with_key-Answered none args inputs w files h = tt
  with_key-Answered (some key) args inputs w files h =
      let options = options_from false false args in
      let env =
        environment tls d system options.json atoi connect fuel (endpoint_url (base_url getenv))
          key in
      let prompt = system_prompt tls d system atoi connect fuel reset fs prints getenv in
      let begun =
        start d env options.json (model_name getenv) prompt options.continue_flag w files in
      converse-Answered d env options.json (model_name getenv) prompt reset options.rest inputs
        begun h

  -- Whatever the arguments, the environment's variables, the files, the network, the tools and the
  -- input: if in the conversation that `main` begins with, empty without -c, every tool use has its
  -- result in the next message, so it has in the conversation at the end.
  pub main-Answered :
      (args : List Bytes) (inputs : List (Input (Tls.Conn tls × System.World system)))
      (w : Tls.Conn tls × System.World system) (files : Files)
      → Answered
          (resume d
            (Options.continue_flag (options_from false false args))
            (system.rewrites w.1)
            files).1
      → Answered (
          Left.messages
            (main tls d system atoi connect fuel reset fs prints getenv args inputs w files))
  unfolding main
  main-Answered args inputs w files h =
      with_key-Answered (getenv (codes "KIMI_TOKEN")) args inputs w files h
