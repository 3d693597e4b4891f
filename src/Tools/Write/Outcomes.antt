-- ===== src/Tools/Write/Outcomes.antt =====
-- main.c: what `atomic_write` leaves: the whole content where every call succeeds, and that or the old
-- file whichever calls fail.
use sa.Prelude.{
  ℕ, ◌≤◌, ◌<◌, ◌≡◌, refl, ap, ◌⊎◌, inl, inr, true, false, not, ◌||◌, none, some, ◌++◌, arith, leb,
  ◌==◌, ==_refl, if-split, length, length-append, take_all,
}
use sa.Prelude.Bytes.{Bytes, codes}
use sa.Tools.Write.{on_disk, atomic_write, Target, WriteCalls}

-- Every call of the C library that the write makes succeeds.
abbrev pub Writes : WriteCalls → ℕ → Type 0
Writes calls n =
    (calls.mkstemp ≡ true)
    × (calls.fdopen ≡ true)
    × (calls.wrote ≡ n)
    × (calls.fclose ≡ true)
    × (calls.rename ≡ true)

pub atomic_write-Writes :
    (calls : WriteCalls) (target : Target) (path content : Bytes)
    → length path < 1013
    → Writes calls (length content)
    → (atomic_write calls target path content).0 ≡ record { file = some content; temporary = none }
unfolding atomic_write
atomic_write-Writes calls target path content short (made, opened, wrote, closed, renamed) =
    let room : leb 1024 (length (path ++ codes ".tmp.XXXXXX")) ≡ false =
      ground (arith, length-append path (codes ".tmp.XXXXXX")) in
    rw (
      room,
      made,
      opened,
      closed,
      wrote,
      ==_refl,
      renamed,
      take_all (length content) content (omega arith),
    )

-- Either the file is as before or it holds the content.
abbrev pub IsEither : Target → Bytes → Target × Bytes → Type 0
IsEither target content r = (r.0.file ≡ target.file) ⊎ (r.0.file ≡ some content)

-- Where `fwrite` takes all and `fclose` succeeds, the temporary file holds the content.
on_disk-whole :
    (calls : WriteCalls) (content : Bytes)
    → (not (calls.wrote == length content) || not calls.fclose) ≡ false
    → on_disk calls content ≡ content
on_disk-whole calls content h =
    let closed : calls.fclose ≡ true = ground (arith, h) in
    let all : length content ≤ calls.wrote = ground (arith, h) in
    rw closed (take_all calls.wrote content all)

pub atomic_write-IsEither :
    (calls : WriteCalls) (target : Target) (path content : Bytes)
    → IsEither target content (atomic_write calls target path content)
unfolding atomic_write
atomic_write-IsEither calls target path content =
    if-split (IsEither target content) (leb 1024 (length (path ++ codes ".tmp.XXXXXX")))
      (λ long. inl refl)
      (λ short.
        if-split (IsEither target content) (not calls.mkstemp) (λ failure. inl refl)
          (λ made.
            if-split (IsEither target content) (not calls.fdopen) (λ failure. inl refl)
              (λ opened.
                if-split (IsEither target content)
                  (not (calls.wrote == length content) || not calls.fclose) (λ failure. inl refl)
                  (λ written.
                    if-split (IsEither target content) (not calls.rename) (λ failure. inl refl)
                      (λ renamed. inr (ap some (on_disk-whole calls content written)))))))
