-- ===== src/Tools/Write.antt =====
-- main.c: `atomic_write`. The state is the file at the path and the temporary file beside it; the
-- outcomes of the calls of the C library are an argument.
pub mod Outcomes
use sa.Prelude.{
  ℕ, ◌-◌, Bool, not, ◌||◌, Option, none, some, ◌++◌, leb, ◌==◌, if◌then◌else◌, length, take, [],
}
use sa.Prelude.Bytes.{Bytes, codes}
use sa.Prelude.Decimal.{decimal}

pub record Target : Type 0 where
  pub file : Option Bytes
  pub temporary : Option Bytes

-- Whether a call succeeds; `template` is what `mkstemp` leaves in its argument when it fails, `wrote`
-- is what `fwrite` returns, `remains` is what the temporary file holds where `fclose` fails, `error` is
-- the text of `strerror(errno)`.
pub record WriteCalls : Type 0 where
  pub mkstemp : Bool
  pub template : Bytes
  pub fdopen : Bool
  pub wrote : ℕ
  pub fclose : Bool
  pub remains : Bytes
  pub rename : Bool
  pub unlink : Bool
  pub error : Bytes

-- `snprintf` into an array of that size.
abbrev pub print_into : ℕ → Bytes → Bytes
print_into size s = take (size - 1) s

-- What the temporary file holds behind `fclose`: the bytes that `fwrite` took, where all reach it.
abbrev pub on_disk : WriteCalls → Bytes → Bytes
on_disk calls content = if calls.fclose then take calls.wrote content else calls.remains

-- `unlink(tmp)` on a temporary file that holds `left`.
abbrev pub unlinked : WriteCalls → Target → Bytes → Target
unlinked calls target left = record target { temporary = if calls.unlink then none else some left }

-- The files after the call, and the text that is returned.
unfoldable pub atomic_write : WriteCalls → Target → Bytes → Bytes → Target × Bytes
atomic_write calls target path content =
    let written = on_disk calls content in
    if leb 1024 (length (path ++ codes ".tmp.XXXXXX"))
    then (target, codes "error: path too long")
    else if not calls.mkstemp
    then (
      target,
      print_into 512 (codes "error: mkstemp " ++ (calls.template ++ (codes ": " ++ calls.error))),
    )
    else if not calls.fdopen
    then (unlinked calls target [], codes "error: fdopen failed")
    else if not (calls.wrote == length content) || not calls.fclose
    then (unlinked calls target written, codes "error: write failed")
    else if not calls.rename
    then (unlinked calls target written, print_into 512 (codes "error: rename: " ++ calls.error))
    else (
      record { file = some written; temporary = none },
      print_into 128 (codes "wrote " ++ (decimal (length content) ++ (codes " bytes to " ++ path))),
    )
