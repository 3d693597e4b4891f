-- ===== src/Tests/ChatTests.antt =====
-- main.c: a turn with a server that asks for one tool and then answers.
use Prim.Native.String.{String}
use sa.Prelude.{ℕ, zero, suc, refl, true, false, none, List, [], ◌∷◌, ◌++◌}
use sa.Prelude.Bytes.{Bytes, codes, equal}
use sa.Prelude.Int.{ℤ, pos}
use sa.Json.Value.{append_field, add_string_to_object}
use sa.Json.Access.{find_field, get_object_item, get_string_value, get_text}
use sa.Stream.Chunk.{on_chunk}
use sa.Http.Post.{Post}
use sa.Stream.State.{empty_block, initial, StreamState}
use sa.Chat.Messages.{make_message, make_user_msg}
use sa.Chat.Turn.{chat_turn, Environment, Chat}
use sa.Chat.Answered.{block_ids, content_ids, message_ids, Answered}
use sa.Chat.Results.{chat_turn-Answered}
use sa.Tests.Integers.{integers}

-- A line of the event stream.
abbrev event : String → Bytes
event s = codes "data: " ++ (codes s ++ b'\n' ∷ [])

abbrev tool_body : List Bytes
tool_body =
    event
      "{\"type\":\"content_block_start\",\"index\":0,\"content_block\":{\"type\":\"tool_use\",\"id\":\"t1\",\"name\":\"shell\"}}"
    ∷ event
        "{\"type\":\"content_block_delta\",\"index\":0,\"delta\":{\"type\":\"input_json_delta\",\"partial_json\":\"{\\\"cmd\\\":\\\"ls\\\"}\"}}"
    ∷ []

abbrev text_body : List Bytes
text_body =
    event
      "{\"type\":\"content_block_start\",\"index\":0,\"content_block\":{\"type\":\"text\",\"text\":\"\"}}"
    ∷ []

-- What the stream state is behind these chunks.
abbrev received : List Bytes → StreamState → StreamState
received [] st = st
received (c ∷ cs) st = received cs (on_chunk integers false false st c).0

-- The world counts the requests.
abbrev server : ℕ → Post
server zero = record {
  state = received tool_body initial;
  out = [];
  status = pos 200;
  code = pos 0;
}
server (suc n) = record {
  state = received text_body initial;
  out = [];
  status = pos 200;
  code = pos 0;
}

abbrev pub machine : Environment ℤ
machine = record {
  World = ℕ;
  is_interrupted = λ n. false;
  http_post = λ n request_text. (suc n, server n);
  dispatch_tool = λ n name input. (n, codes "a.c");
  opens = λ n. true;
  rewrites = λ n. record {
    mkstemp = true;
    fdopen = true;
    saved = true;
    remains = [];
    rename = true;
    unlink = true;
  };
}

abbrev pub start : Chat integers machine false
start = record {
  world = 0;
  messages = make_user_msg (codes "hi") ∷ [];
  files = record { session = none; temporary = none };
  out = [];
}

pub start-Answered : Answered start.messages
unfolding message_ids content_ids block_ids make_user_msg make_message add_string_to_object
    append_field get_text get_object_item find_field get_string_value equal
start-Answered = refl

chat_turn-Answered_example :
    Answered (chat_turn integers machine false (codes "m") (codes "s") [] start).0.messages
chat_turn-Answered_example =
    chat_turn-Answered integers machine false (codes "m") (codes "s") [] start start-Answered

abbrev ended : Chat integers machine false × ℕ
ended = chat_turn integers machine false (codes "m") (codes "s") [] start

-- A state whose one block is a tool use without input.
abbrev without_input : StreamState
without_input = record initial {
  blocks = record empty_block { type = codes "tool_use" } ∷ [];
  n = 1;
}
