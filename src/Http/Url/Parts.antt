-- ===== src/Http/Url/Parts.antt =====
-- main.c: what `parse_url` writes fits, and is what the URL is made of.
use sa.Prelude.{
  ℕ, ◌-◌, ◌≤◌, ◌<◌, ◌≡◌, false, not, ◌||◌, Option, none, some, [], ◌∷◌, arith, leb, ◌==◌, length,
  take, suc, Bool, true, ◌++◌, ==_refl, &&-true, every, length-append, take_all,
}
use sa.Prelude.Bytes.{Bytes, codes, starts_with}
use sa.Prelude.Int.{pos_part, neg_part, ltb_ℤ, leb_ℤ, ℤ, pos}
use sa.Http.Url.{strchr, before, with_port, parse_url, Url}

-- The parts fit in their arrays, with the NUL at their ends, and the port is one.
abbrev pub Fits : (host_size path_size : ℕ) → Option Url → Type 0
Fits host_size path_size none = Unit
Fits host_size path_size (some u) =
    (length u.host < host_size)
    × (length u.path < path_size)
    × ((0 < pos_part u.port) × (pos_part u.port ≤ 65535) × (neg_part u.port ≡ 0))

-- No byte of a string is this one.
abbrev pub lacks : ℕ → Bytes → Bool
lacks c = every (λ x. not (x == c))

before_first : (a s : Bytes) (c : ℕ) → lacks c a ≡ true → before (a ++ c ∷ s) c ≡ a
unfolding before
before_first [] s c h = rw (==_refl c)
before_first (x ∷ a) s c h =
    let both = &&-true (not (x == c)) (lacks c a) h in
    let other : (x == c) ≡ false = ground (arith, both.0) in rw (other, before_first a s c both.1)

strchr_first : (a s : Bytes) (c : ℕ) → lacks c a ≡ true → strchr (a ++ c ∷ s) c ≡ some (c ∷ s)
unfolding strchr
strchr_first [] s c h = rw (==_refl c)
strchr_first (x ∷ a) s c h =
    let both = &&-true (not (x == c)) (lacks c a) h in
    let other : (x == c) ≡ false = ground (arith, both.0) in rw (other, strchr_first a s c both.1)

-- A URL with a port and a path comes apart into its name, its port and its path, where neither slash
-- nor colon is in the name and no slash in the port, the port is between 1 and 65535, and the parts
-- fit in their arrays.
pub parse_url_lem :
    (atoi : Bytes → ℤ) (name digits rest : Bytes) (n host_size path_size : ℕ)
    → lacks b'/' (name ++ b':' ∷ digits) ≡ true
    → lacks b':' name ≡ true
    → atoi digits ≡ pos n
    → 0 < n
    → n ≤ 65535
    → length (name ++ b':' ∷ digits) < host_size
    → suc (length rest) < path_size
    → parse_url atoi
        (codes "https://" ++ ((name ++ b':' ∷ digits) ++ b'/' ∷ rest))
        host_size
        path_size
      ≡ some (record { host = name; port = pos n; path = b'/' ∷ rest })
unfolding parse_url with_port starts_with
parse_url_lem atoi name digits rest n host_size path_size no_slash no_colon number low high
      host_fits path_fits =
    let host = name ++ b':' ∷ digits in
    let size = length-append name (b':' ∷ digits) in
    let some_host : (length host == 0 || leb host_size (length host)) ≡ false =
      ground (arith, size) in
    let valid : (leb_ℤ (pos n) (pos 0) || ltb_ℤ (pos 65535) (pos n)) ≡ false = ground arith in
    let whole : take (path_size - 1) (b'/' ∷ rest) ≡ b'/' ∷ rest =
      take_all (path_size - 1) (b'/' ∷ rest) (omega arith) in
    rw (
      before_first host rest b'/' no_slash,
      strchr_first host rest b'/' no_slash,
      strchr_first name digits b':' no_colon,
      before_first name digits b':' no_colon,
      some_host,
      number,
      valid,
      whole,
    )
