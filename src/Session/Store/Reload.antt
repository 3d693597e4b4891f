-- ===== src/Session/Store/Reload.antt =====
-- main.c: what `session_load` reads from a file that `session_append` and `session_rewrite` wrote.
use sa.Prelude.{
  suc, ◌+◌, ◌≡◌, refl, ap, ◌⊎◌, inl, inr, Bool, true, false, not, ◌&&◌, Option, none, some, List,
  [], ◌∷◌, ◌++◌, append_assoc, append-nil, arith, ◌==◌, if◌then◌else◌, Bool-cases, if-split, length,
  All,
}
use sa.Prelude.Bytes.{Bytes}
use sa.Json.Value.{Json}
use sa.Json.Number.{Doubles}
use sa.Json.Printer.{print_value}
use sa.Json.Printer.Lines.{IsPlainG, is_plain-print_value}
use sa.Json.RoundTrip.Printable.{IsPrintable, print_value-Begins, Begins}
use sa.Json.RoundTrip.Texts.{parse-print_value}
use sa.Session.Store.{
  contents, unlinked, getlines, message_line, session_text, session_append, session_rewrite, Loaded,
  add_message, load_line, load_lines, session_load, Files, RewriteCalls,
}
use sa.Session.Store.Lines.{
  getlines-plain, without_newline-line, ends_line, ends_line-append, getlines-nil, getlines-append,
}

not_empty : (s : Bytes) → Begins s → (length s == 0) ≡ false
not_empty [] h = absurd h
not_empty (c ∷ s) h = ground arith

-- Whether the temporary file is made, opened and renamed.
abbrev pub replaces : RewriteCalls → Bool
replaces calls = calls.mkstemp && calls.fdopen && calls.rename

module _ (d : Doubles) where
  open d use {Double}

  -- What a load gives, where no file is no message.
  abbrev pub messages_of : Option (Loaded d) → Loaded d
  messages_of none = ([], 0)
  messages_of (some loaded) = loaded

  -- The session file is the old one where the temporary is not renamed; else it loads as these
  -- messages where the writes succeed, and is what they left where they fail. A new temporary file is
  -- there only where `unlink` fails.
  abbrev pub IsSafe : RewriteCalls → Files → List (Json Double) → Files → Type 0
  IsSafe calls fs ms after =
      (((replaces calls ≡ false) × (after.session ≡ fs.session))
        ⊎ ((replaces calls ≡ true)
            × (calls.saved ≡ true)
            × (session_load d after [] ≡ some (ms, length ms)))
        ⊎ ((replaces calls ≡ true) × (calls.saved ≡ false) × (after.session ≡ some calls.remains)))
      × ((after.temporary ≡ fs.temporary)
          ⊎ (after.temporary ≡ none)
          ⊎ ((calls.unlink ≡ false) × (after.session ≡ fs.session)))

module _ (d : Doubles) (plain_g : IsPlainG d) where
  open d use {Double}

  -- A line that `message_line` wrote gives its message back.
  load_line-message :
      (loaded : Loaded d) (m : Json Double)
      → IsPrintable d m
      → load_line d loaded (message_line d m) ≡ add_message d loaded (some m)
  unfolding load_line message_line
  load_line-message loaded m p = rw (
    without_newline-line (print_value d m),
    parse-print_value d plain_g m p,
    not_empty (print_value d m) (print_value-Begins d m p),
  )

  getlines-session :
      (m : Json Double) (rest : Bytes)
      → getlines (message_line d m ++ rest) ≡ message_line d m ∷ getlines rest
  unfolding message_line
  getlines-session m rest =
      rw append_assoc (getlines-plain (print_value d m) rest (is_plain-print_value d plain_g m))

  load_lines-nil : (loaded : Loaded d) → load_lines d loaded [] ≡ loaded
  unfolding load_lines
  load_lines-nil loaded = refl

  load_lines_lem :
      (loaded : Loaded d) (l : Bytes) (ls : List Bytes)
      → load_lines d loaded (l ∷ ls) ≡ load_lines d (load_line d loaded l) ls
  unfolding load_lines
  load_lines_lem loaded l ls = refl

  load_lines-session_text :
      (loaded : Loaded d) (ms : List (Json Double))
      → All (IsPrintable d) ms
      → load_lines d loaded (getlines (session_text d ms)) ≡ (loaded.0 ++ ms, loaded.1 + length ms)
  unfolding session_text
  load_lines-session_text loaded [] p =
      let same : loaded.1 ≡ loaded.1 + 0 = omega arith in
      rw (getlines-nil, append-nil, load_lines-nil) (ap (λ k. (loaded.0, k)) same)
  load_lines-session_text loaded (m ∷ ms) p =
      let rest = load_lines-session_text (add_message d loaded (some m)) ms p.1 in
      let sum : suc loaded.1 + length ms ≡ loaded.1 + suc (length ms) = omega arith in
      rw (
        getlines-session m (session_text d ms),
        load_lines_lem,
        load_line-message loaded m p.0,
        rest,
        append_assoc,
        sum,
      )

  -- What was written anew is read back: the same messages in the same order.
  load-session_text :
      (temporary : Option Bytes) (ms : List (Json Double))
      → All (IsPrintable d) ms
      → session_load d (record { session = some (session_text d ms); temporary = temporary }) []
        ≡ some (ms, length ms)
  unfolding session_load
  load-session_text temporary ms p =
      let same : 0 + length ms ≡ length ms = omega arith in
      rw (load_lines-session_text ([], 0) ms p, same)

  load_lines-concat :
      (loaded : Loaded d) (ls rest : List Bytes)
      → load_lines d loaded (ls ++ rest) ≡ load_lines d (load_lines d loaded ls) rest
  unfolding load_lines
  load_lines-concat loaded [] rest = refl
  load_lines-concat loaded (l ∷ ls) rest = load_lines-concat (load_line d loaded l) ls rest

  getlines-message : (m : Json Double) → getlines (message_line d m) ≡ message_line d m ∷ []
  getlines-message m =
      let line : getlines (message_line d m ++ []) ≡ message_line d m ∷ getlines [] =
        getlines-session m [] in
      rw (append-nil, getlines-nil) at line

  load_lines_last :
      (loaded : Loaded d) (m : Json Double)
      → IsPrintable d m
      → load_lines d loaded (message_line d m ∷ []) ≡ add_message d loaded (some m)
  unfolding load_lines
  load_lines_last loaded m p = load_line-message loaded m p

  -- One more message behind a file of whole lines.
  load_lines-append :
      (s : Bytes) (m : Json Double) (loaded : Loaded d)
      → ends_line s ≡ true
      → IsPrintable d m
      → load_lines d loaded (getlines (s ++ message_line d m))
        ≡ add_message d (load_lines d loaded (getlines s)) (some m)
  load_lines-append s m loaded h p =
      rw (getlines-append s (message_line d m) h, getlines-message m, load_lines-concat)
        (load_lines_last (load_lines d loaded (getlines s)) m p)

  ends_line-message_line : (s : Bytes) (m : Json Double) → ends_line (s ++ message_line d m) ≡ true
  unfolding message_line
  ends_line-message_line s m = ends_line-append s (print_value d m)

  -- A message that can be read back (`IsPrintable`), appended to a file of whole lines or to none, is
  -- loaded last, after the messages that were loaded before; and the file is one of whole lines again.
  -- `fopen` and the writes behind it succeed, and `%g` is taken to write no control byte.
  pub session_load-session_append :
      (json : Bool) (fs : Files) (m : Json Double)
      → ends_line (contents fs.session) ≡ true
      → IsPrintable d m
      → let after = (session_append d json true fs m).0 in
        (session_load d after []
          ≡ some (add_message d (messages_of d (session_load d fs [])) (some m)))
        × (ends_line (contents after.session) ≡ true)
  unfolding session_append session_load
  session_load-session_append json fs m h p = appended fs.session h
    where
      appended :
          (file : Option Bytes)
          → ends_line (contents file) ≡ true
          → (◌≡◌ {A = Option (Loaded d)}
              (some (load_lines d ([], 0) (getlines (contents file ++ message_line d m))))
              (some (
                add_message d
                  (messages_of d (session_load d (record fs { session = file }) []))
                  (some m))))
            × (ends_line (contents file ++ message_line d m) ≡ true)
      appended none h = (
        rw (load_lines-append [] m ([], 0) h p, getlines-nil, load_lines-nil),
        ends_line-message_line [] m,
      )
      appended (some s) h = (rw (load_lines-append s m ([], 0) h p), ends_line-message_line s m)

  -- Left alone, or cleared away by `unlink`.
  unlinked-IsSafe :
      (calls : RewriteCalls) (fs : Files) (ms : List (Json Double)) (left : Bytes)
      → replaces calls ≡ false
      → IsSafe d calls fs ms (unlinked calls fs left)
  unlinked-IsSafe calls fs ms left kept = elim (Bool-cases calls.unlink) [
    | inl done ↦ (inl (kept, refl), inr (inl (rw done)))
    | inr failure ↦ (inl (kept, refl), inr (inr (failure, refl)))
  ]

  renamed-IsSafe :
      (calls : RewriteCalls) (fs : Files) (ms : List (Json Double))
      → All (IsPrintable d) ms
      → replaces calls ≡ true
      → IsSafe d calls fs ms (record {
        session = some (if calls.saved then session_text d ms else calls.remains);
        temporary = none;
      })
  renamed-IsSafe calls fs ms p all = elim (Bool-cases calls.saved) [
    | inl saved ↦ (inr (inl (all, saved, rw saved (load-session_text none ms p))), inr (inl refl))
    | inr failure ↦ (inr (inr (all, failure, rw failure)), inr (inl refl))
  ]

  -- A rewrite of messages that can be read back (`IsPrintable`) leaves the session file as it was where
  -- `mkstemp`, `fdopen` or `rename` fails, and else puts the temporary file in its place: where all of
  -- `fputs`, `fputc` and `fclose` succeed, exactly these messages are loaded from it; where one of them
  -- fails, which the code does not look at, it is whatever they left. A new temporary file stays only
  -- where `unlink` fails, and then the session file is as it was. `%g` is taken to write no control
  -- byte.
  pub session_load-session_rewrite :
      (calls : RewriteCalls) (fs : Files) (ms : List (Json Double))
      → All (IsPrintable d) ms
      → IsSafe d calls fs ms (session_rewrite d calls fs ms)
  unfolding session_rewrite
  session_load-session_rewrite calls fs ms p =
      let written = if calls.saved then session_text d ms else calls.remains in
      if-split (IsSafe d calls fs ms) (not calls.mkstemp)
        (λ no_temporary. (inl (ground (arith, no_temporary), refl), inl refl))
        (λ made.
          if-split (IsSafe d calls fs ms) (not calls.fdopen)
            (λ no_stream. unlinked-IsSafe calls fs ms [] (ground (arith, made, no_stream)))
            (λ opened.
              if-split (IsSafe d calls fs ms) calls.rename
                (λ renamed. renamed-IsSafe calls fs ms p (ground (arith, made, opened, renamed)))
                (λ failure.
                  unlinked-IsSafe calls fs ms written (ground (arith, made, opened, failure)))))
