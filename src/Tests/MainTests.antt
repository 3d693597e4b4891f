-- ===== src/Tests/MainTests.antt =====
-- main.c: the shell, the dispatch of tools, buffers, sockets and the loop at concrete inputs.
use sa.Prelude.{
  ℕ, ◌≡◌, refl, true, false, Option, none, some, List, [], ◌∷◌, ◌++◌, arith, All, suc,
  if◌then◌else◌,
}
use sa.Prelude.Bytes.{codes, c_string, Bytes, equal}
use sa.Prelude.Int.{ℤ, pos}
use sa.Json.Value.{Json, string, object, no_fields, field}
use sa.Session.Store.{session_text, Files}
use sa.Tools.Shell.{read_output, shell_result, run_shell, exited}
use sa.Prelude.Decimal.{decimal, decimal_on}
use sa.Tools.Shell.Output.{run_shell_lem}
use sa.Tools.Schemas.{made_tools}
use sa.Tools.Dispatch.Required.{Agrees, call_of-required}
use sa.Http.Socket.{tcp_connect, in_progress, refused, Attempt}
use sa.Http.Socket.Connects.{first_connected, opened_with, tcp_connect_lem}
use sa.Buffer.{no_buffer, cj_bput, Buffer}
use sa.Buffer.Holds.{cj_bput-Holds, Holds}
use sa.Buffer.Refines.{
  abstract_ops, buffer_ops, no_buffer-Holds, buffer_ops-Holds, Op, append, reset,
}
use sa.Chat.Stored.{Stored, FilesWork}
use sa.Chat.Answered.{Answered}
use sa.Chat.Turn.{Chat}
use sa.Main.Start.{options_from, resume, main, Options, Left}
use sa.Main.Whole.{main-Answered}
use sa.Tools.Dispatch.{System}
use sa.Prompt.Skills.{absent, FileSystem}
use sa.Tests.Wire.{wire}
use sa.Main.{repl, Input, typed, interrupt}
use sa.Main.Keeps.{repl-Stored}
use sa.Tests.Integers.{integers}
use sa.Tests.ChatTests.{machine, start}

shell_run : run_shell (some (codes "a.c\n", exited 0)) ≡ codes "a.c\n\n[exit 0]"
unfolding run_shell read_output shell_result c_string decimal decimal_on
shell_run = refl

run_shell_lem_example : run_shell (some (codes "a.c\n", exited 2)) ≡ codes "a.c\n\n[exit 2]"
unfolding decimal c_string
run_shell_lem_example = run_shell_lem (codes "a.c\n") (exited 2)

abbrev tool_input : Option (Json ℤ)
tool_input = some (object (field (codes "path") (string (codes "a.c")) no_fields))

call_of-required_example : All (Agrees integers tool_input) made_tools
call_of-required_example = call_of-required integers tool_input

-- The second address answers in time, after the first was refused.
abbrev addresses : List Attempt
addresses =
    record { socket = some 4; connect = refused; ready = false; sound = false }
    ∷ record { socket = some 5; connect = in_progress; ready = true; sound = true }
    ∷ []

tcp_connect_lem_example :
    (tcp_connect (some addresses) [] ≡ opened_with [] (first_connected addresses))
    × (tcp_connect none [] ≡ opened_with [] none)
tcp_connect_lem_example = tcp_connect_lem addresses []

abbrev calls : List Op
calls = append (codes "ab") ∷ reset ∷ append (codes "c") ∷ []

buffer_ops-Holds_example :
    (r : Buffer) × (buffer_ops calls no_buffer ≡ some r) × Holds r (abstract_ops [] calls)
buffer_ops-Holds_example = buffer_ops-Holds calls no_buffer [] (omega arith) no_buffer-Holds

cj_bput-Holds_example :
    (r : Buffer) × (cj_bput no_buffer (codes "null") ≡ some r) × Holds r ([] ++ codes "null")
cj_bput-Holds_example = cj_bput-Holds no_buffer [] (codes "null") (omega arith) no_buffer-Holds

abbrev typing : List (Input ℕ)
typing = typed (λ w. w) (codes "list\n") ∷ interrupt (λ w. w) ∷ typed (λ w. w) (codes "\n") ∷ []

abbrev machine_works : FilesWork machine
machine_works = record { opened = λ w. refl; rewritten = λ w. (refl, refl, refl, refl) }

abbrev empty_chat : Chat integers machine false
empty_chat = record start { messages = [] }

empty_chat-Stored : Stored integers machine false machine_works empty_chat
unfolding session_text
empty_chat-Stored = refl

repl-Stored_example :
    Stored integers machine false machine_works
      (repl integers machine false (codes "m") (codes "s") (λ w. w) typing empty_chat).0
repl-Stored_example =
    repl-Stored integers machine false (codes "m") (codes "s") machine_works (λ w. w) typing
      empty_chat empty_chat-Stored

-- A system whose commands print nothing, and which has no files.
abbrev bare_system : System
bare_system = record {
  World = ℕ;
  popen = λ w cmd. (suc w, some ([], exited 0));
  target = λ w path. record { file = none; temporary = none };
  set_target = λ w path t. w;
  edit_calls = λ w path. record {
    fopen = false;
    ftell = false;
    readable = 0;
    open_error = codes "none";
    writing = record {
      mkstemp = false;
      template = [];
      fdopen = false;
      wrote = 0;
      fclose = false;
      remains = [];
      rename = false;
      unlink = false;
      error = codes "none";
    };
  };
  opened = λ w path. none;
  open_error = λ w path. codes "none";
  opens = λ w. true;
  rewrites = λ w. record {
    mkstemp = true;
    fdopen = true;
    saved = true;
    remains = [];
    rename = true;
    unlink = true;
  };
}

abbrev no_files : FileSystem
no_files = record {
  text_of = λ p. none;
  stat = λ p. absent;
  size = λ p. 0;
  realpath = λ p. none;
  names = λ dir. none;
}

abbrev unstored : Files
unstored = record { session = none; temporary = none }

abbrev arguments : List Bytes
arguments = codes "--json" ∷ codes "list" ∷ codes "files" ∷ []

abbrev token : Bytes → Option Bytes
token name = if equal name (codes "KIMI_TOKEN") then some (codes "key") else none

fresh-Answered :
    Answered
      (resume integers
        (Options.continue_flag (options_from false false arguments))
        (bare_system.rewrites 0)
        unstored).1
unfolding resume options_from equal
fresh-Answered = tt

main-Answered_example : Answered (
    Left.messages (
      main wire integers bare_system
        (λ s. pos 443)
        (λ c host port. (c, true))
        9
        (λ w. w)
        no_files
        (λ cmd. false)
        token
        arguments
        []
        (codes "HTTP/1.1 500 x\r\n\r\n", 0)
        unstored))
main-Answered_example =
    main-Answered wire integers bare_system (λ s. pos 443) (λ c host port. (c, true)) 9 (λ w. w)
      no_files (λ cmd. false) token arguments [] (codes "HTTP/1.1 500 x\r\n\r\n", 0) unstored
      fresh-Answered
