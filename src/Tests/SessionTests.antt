-- ===== src/Tests/SessionTests.antt =====
-- main.c: the session functions: runs and instances.
use sa.Prelude.{◌+◌, ◌≡◌, refl, ap, true, none, some, List, [], ◌∷◌, length, drop, All, false}
use sa.Prelude.Bytes.{Bytes, codes, equal}
use sa.Prelude.Int.{ℤ}
use sa.Json.Value.{Json, string, array, object, no_items, item, Fields, no_fields, field}
use sa.Json.Access.{
  find_field, get_object_item, get_array_item, get_array_size, get_string_value, is_array, get_text,
}
use sa.Json.RoundTrip.Printable.{IsPrintable}
use sa.Session.Store.{
  contents, session_append, session_rewrite, add_message, session_load, Files, RewriteCalls,
}
use sa.Session.Store.Reload.{IsSafe, session_load-session_append, session_load-session_rewrite}
use sa.Session.Store.Lines.{ends_line}
use sa.Session.Compact.{cleared, compact_clear_tool_results}
use sa.Session.Compact.Settled.{compact_twice, compact_keeps, compact_nothing}
use sa.Session.Prune.{session_prune_empty_tool_use}
use sa.Session.Prune.Reference.{healed, prune-healed, IsSound, prune-IsSound, prune_counts}
use sa.Tests.Integers.{integers, integers-IsPlainG}

abbrev message : Bytes → Fields ℤ → Json ℤ
message role block = object (
    field (codes "role") (string role)
      (field (codes "content") (array (item (object block) no_items)) no_fields))

abbrev question : Json ℤ
question = message (codes "user") (
    field (codes "type") (string (codes "text"))
      (field (codes "text") (string (codes "hi")) no_fields))

abbrev broken_use : Json ℤ
broken_use = message (codes "assistant") (
    field (codes "type") (string (codes "tool_use"))
      (field (codes "input") (object no_fields) no_fields))

abbrev result_of : Bytes → Json ℤ
result_of text = message (codes "user") (
    field (codes "type") (string (codes "tool_result"))
      (field (codes "content") (string text) no_fields))

abbrev long_result : Json ℤ
long_result = result_of (codes "twelve bytes")

abbrev conversation : List (Json ℤ)
conversation = question ∷ broken_use ∷ long_result ∷ question ∷ []

conversation-IsPrintable : All (IsPrintable integers) conversation
unfolding IsPrintable
conversation-IsPrintable = (
  (refl, refl, (refl, ((refl, refl, (refl, refl, tt)), tt), tt)),
  (
    (refl, refl, (refl, ((refl, refl, (refl, tt, tt)), tt), tt)),
    (
      (refl, refl, (refl, ((refl, refl, (refl, refl, tt)), tt), tt)),
      ((refl, refl, (refl, ((refl, refl, (refl, refl, tt)), tt), tt)), tt),
    ),
  ),
)

-- Cleared behind the last message, and left alone within the last two.
compact_runs :
    (compact_clear_tool_results conversation 1
      ≡ (question ∷ broken_use ∷ result_of cleared ∷ question ∷ [], 1))
    × (compact_clear_tool_results conversation 2 ≡ (conversation, 0))
unfolding compact_clear_tool_results get_text get_object_item find_field get_string_value equal
compact_runs = (refl, refl)

prune_runs : session_prune_empty_tool_use conversation ≡ (question ∷ question ∷ [], 2)
unfolding session_prune_empty_tool_use get_text get_object_item find_field get_string_value equal
    get_array_size get_array_item is_array
prune_runs = refl

abbrev no_files : Files
no_files = record { session = none; temporary = none }

abbrev working : RewriteCalls
working = record {
  mkstemp = true;
  fdopen = true;
  saved = true;
  remains = [];
  rename = true;
  unlink = true;
}

session_load-session_rewrite_example :
    IsSafe integers working no_files conversation
      (session_rewrite integers working no_files conversation)
session_load-session_rewrite_example =
    session_load-session_rewrite integers integers-IsPlainG working no_files conversation
      conversation-IsPrintable

-- A disk that is full: what was written of the temporary file takes the place of the session.
full_disk_runs :
    session_rewrite integers
      (record working { saved = false; remains = codes "{" })
      no_files
      conversation
    ≡ record { session = some (codes "{"); temporary = none }
unfolding session_rewrite
full_disk_runs = refl

session_load-session_append_example :
    let after = (session_append integers true true no_files question).0 in
    (session_load integers after [] ≡ some (add_message integers ([], 0) (some question)))
    × (ends_line (contents after.session) ≡ true)
unfolding session_load
session_load-session_append_example =
    session_load-session_append integers integers-IsPlainG true no_files question refl
      (conversation-IsPrintable.0)

compact_twice_example :
    (compact_clear_tool_results (compact_clear_tool_results conversation 1).0 1).1 ≡ 0
compact_twice_example = compact_twice conversation 1

compact_keeps_example :
    (length (compact_clear_tool_results conversation 1).0 ≡ 4)
    × (drop 3 (compact_clear_tool_results conversation 1).0 ≡ question ∷ [])
compact_keeps_example = compact_keeps conversation 1

compact_nothing_example : (compact_clear_tool_results conversation 2).0 ≡ conversation
compact_nothing_example = compact_nothing conversation 2 (ap (λ r. r.1) (compact_runs.1))

prune-healed_example : (session_prune_empty_tool_use conversation).0 ≡ healed conversation
prune-healed_example = prune-healed conversation

prune-IsSound_example : All IsSound (session_prune_empty_tool_use conversation).0
prune-IsSound_example = prune-IsSound conversation

prune_counts_example :
    length (session_prune_empty_tool_use conversation).0
      + (session_prune_empty_tool_use conversation).1
    ≡ 4
prune_counts_example = prune_counts conversation
