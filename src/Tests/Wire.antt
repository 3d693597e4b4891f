-- ===== src/Tests/Wire.antt =====
-- A connection that is its pending bytes, of which a read gives three at most.
use sa.Prelude.{
  ℕ, ◌≤◌, ◌<◌, min, ◌≡◌, refl, sym, true, false, Option, none, some, [], ◌∷◌, ◌++◌, arith, length,
  take, drop, take-append-drop, length-take,
}
use sa.Prelude.Bytes.{Bytes}
use sa.Http.Tls.{Tls, Delivery}

abbrev pub read_three : Bytes → ℕ → Bytes × Option Bytes
read_three [] n = ([], none)
read_three (x ∷ s) n = (drop (min n 3) (x ∷ s), some (take (min n 3) (x ∷ s)))

abbrev pub wire : Tls
wire = record {
  Conn = Bytes;
  is_interrupted = λ c. false;
  read = read_three;
  write_all = λ c s. (c, true);
  flush = λ c. (c, true);
  shut = λ c. c;
  close = λ c. c;
}

pub read_three-some :
    (c : Bytes) (n : ℕ)
    → 0 < n
    → 0 < length c
    → (s : Bytes) × ((read_three c n).1 ≡ some s)
      × (0 < length s)
      × (length s ≤ n)
      × (c ≡ s ++ (read_three c n).0)
read_three-some [] n h k = absurd (omega arith)
read_three-some (x ∷ c) n h k =
    let size = length-take (min n 3) (x ∷ c) in
    (
      take (min n 3) (x ∷ c),
      refl,
      omega (arith, size),
      omega (arith, size),
      sym (take-append-drop (min n 3) (x ∷ c)),
    )

abbrev pub wire_delivery : Delivery wire
wire_delivery = record { pending = λ c. c; read_some = read_three-some }

pub wire_quiet : (c : Bytes) → wire.is_interrupted c ≡ false
wire_quiet c = refl
