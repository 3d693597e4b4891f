-- ===== src/Lib.antt =====
-- sa, a streaming agent: main.c, tinyjson.h and config.def.h.
--
-- The program sends the conversation to an HTTP endpoint, reads the answer as server-sent events,
-- runs the tools that the answer asks for, sends their results, and keeps the conversation in a file
-- of JSON lines. `main` reads the options, the skills, the rules and the session, and hands what is
-- typed to turns. A turn (`chat_turn`) makes a request (`do_turn`, `http_post_sse`), which hands each
-- chunk of the answer to `on_chunk`, which hands each line of data to `handle_event`; the blocks that
-- the events built become the assistant's message (`blocks_to_content`), the tools run
-- (`dispatch_tool`), and both messages are appended to the session file (`session_append`). When the
-- endpoint says that the context is too long, `compact_clear_tool_results` shortens older results and
-- `session_rewrite` writes the file anew. At the start `session_load` reads the file and
-- `session_prune_empty_tool_use` repairs it.
--
-- The files, and the code that each is about:
--   Prelude       byte strings for C strings and buffers, lists, integers, decimal notation. Scan:
--                 the C library's strtol and comparisons without case, as documented.
--   Config        the constants of config.def.h
--   Json          tinyjson.h. Value: the nodes and the functions that build them. Access: the
--                 lookups. Number: what the code relies on of doubles, strtod and printf. Printer:
--                 cj_print_string, cj_print_value. Parser: cj_parse_value and what it calls,
--                 cJSON_Parse. Heap: the nodes in memory, with cj_append_child and, in
--                 Heap/Delete, cJSON_Delete and cJSON_DeleteItemFromArray. Printer/Lines, Total,
--                 RoundTrip and the other children of Heap hold proofs.
--   Stream        main.c. State: block_t, stream_state_t. Event: handle_event. Chunk: on_chunk.
--                 Content: blocks_to_content. Bounds, Frame, Chunking and Lines hold proofs.
--   Session       main.c. Store: session_append, session_rewrite, session_load. Compact:
--                 compact_clear_tool_results. Prune: session_prune_empty_tool_use. Their children
--                 hold proofs.
--   Tools         main.c. Write: atomic_write. Edit: edit_file_tool. Read: read_file_tool. Shell:
--                 run_shell. Schemas: the descriptions of the tools. Dispatch: dispatch_tool. Their
--                 children hold proofs.
--   Http          main.c. Url: parse_url. Socket: tcp_connect, sock_read, sock_write. Tls: the
--                 interface to BearSSL. Headers: http_read_headers. Body: http_stream_body. Post:
--                 http_post_sse. Their children hold proofs.
--   Prompt        main.c. Text: trim, append_fold, buf_append_xml_escaped. Skills: parse_frontmatter,
--                 scan_skills_dir. Rules: parse_rule, rule_applies, scan_rules_dir. System:
--                 build_system_prompt, append_claude_md. Their children hold proofs.
--   Chat          main.c. Answer: do_turn. Messages, Turn: chat_turn and make_user_msg. Answered,
--                 Uses, Results, Stored and Spoiled hold proofs.
--   Main          main.c: the loop of main, and the parts put together (`environment`). Start: the
--                 options, the settings, and main itself. Keeps, Whole hold proofs.
--   Buffer        main.c: buf_t; tinyjson.h: cj_buf, on memory cells. Its children hold proofs.
--   Tests         runs, and the theorems at concrete inputs
--
-- State is passed explicitly: a handler takes the state and returns it with what it wrote to stdout.
-- A pointer that may be NULL is an `Option`, a child list is a list, `char` arrays and `buf_t` are
-- the bytes they hold, with the capacities written out where the code tests them; Buffer and Json/Heap
-- are about the memory behind buffers and nodes. An `int` is a number: the counters of the
-- program stay far below 2^31, being bounded by what is in memory. An access to `blocks` outside
-- the array, undefined in C, sets the mark `in_range` of the state. What a temporary file holds after a
-- write depends on how `fwrite` (or `fputs`) and `fclose` end, and whether it stays on `unlink`; the
-- writes of session_append, to the session file itself, are taken to succeed once it is open.
--
-- Fuel: the parser is mutually recursive over the input, and gets twice the length of the text and
-- one; every call that recurses has consumed a byte or goes down one level within the same byte.
-- The count of matches in an edit gets the length of the text and one, a match being one byte at
-- least. A turn has the source's own bound MAX_TOOL_ITER. The doubling of a buffer gets 64 rounds and
-- the loop of run_shell 257. Reading a body gets fuel from outside, as a peer may send without end:
-- for a body in chunks, more rounds than it has chunks are enough, each within the length of its chunk.
--
-- Parameters: doubles and their conversions (Json/Number), the outcomes of system calls
-- (`RewriteCalls`, `WriteCalls`, `EditCalls`, `Attempt`, `System`), the files (`FileSystem`), the TLS
-- connection (`Tls`, with the handshake), the commands that `find` runs, the environment's variables,
-- what is typed (`Input`), and `atoi`. A turn has the network, the tools and the signal as
-- `Environment`, which Main fills from these.
--
-- Not modelled: running out of memory, on which the program aborts or crashes; what goes to stderr;
-- the TLS library under bearssl, whose certificates are in ca.h; the release of the strings of a
-- node, and what is freed besides nodes (`stream_state_free`, the end of `main`).
pub mod Prelude
pub mod Config
pub mod Json
pub mod Stream
pub mod Session
pub mod Tools
pub mod Chat
pub mod Http
pub mod Prompt
pub mod Main
pub mod Buffer
mod Tests
