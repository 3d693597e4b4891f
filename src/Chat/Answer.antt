-- ===== src/Chat/Answer.antt =====
-- main.c: `do_turn`: what one call of the endpoint comes to.
use sa.Prelude.{Bool, true, false, ◌&&◌, ◌||◌, Option, none, some, ◌==◌, if◌then◌else◌, length}
use sa.Prelude.Bytes.{Bytes, codes, c_string}
use sa.Prelude.Int.{ltb_ℤ, pos, negsuc, eqb_ℤ}
use sa.Json.Number.{Doubles}
use sa.Json.Access.{get_object_item, get_text}
use sa.Json.Parser.{parse}
use sa.Stream.State.{StreamState}
use sa.Http.Post.{Post}
use sa.Tools.Edit.{strstr}

-- The return values 0, -1, -2 and -3 of `do_turn`.
pub data Outcome : Type 0 where
  answered : Outcome
  refused : Outcome
  stopped : Outcome
  overflowed : Outcome

abbrev contains : Bytes → Bytes → Bool
contains s needle = elim (strstr needle s) [ none ↦ false | some i ↦ true ]

-- `strstr(m, "context") || ...`.
abbrev names_overflow : Option Bytes → Bool
names_overflow none = false
names_overflow (some m) =
    contains m (codes "context") || contains m (codes "token") || contains m (codes "length")

module _ (d : Doubles) where
  open d use {Double}

  -- The error message in the head of the body.
  unfoldable pub error_message : StreamState → Option Bytes
  error_message st =
      if length (c_string st.raw_head) == 0
      then none
      else get_text (get_object_item (parse d st.raw_head) (codes "error")) (codes "message")

  -- `interrupted` is `g_interrupt` after the call of `http_post_sse`.
  unfoldable pub do_turn : (interrupted : Bool) → Post → Outcome
  do_turn interrupted post =
      if interrupted || eqb_ℤ post.code (negsuc 1)
      then stopped
      else if ltb_ℤ post.code (pos 0) && eqb_ℤ post.status (pos 0)
      then refused
      else if eqb_ℤ post.status (pos 200)
      then answered
      else if names_overflow (error_message post.state)
      then overflowed
      else refused
