-- ===== src/Prompt/Text/Escape.antt =====
-- main.c: the texts that `buf_append_xml_escaped` writes.
use sa.Prelude.{
  ℕ, ◌≡◌, ◌≢◌, true, ◌&&◌, [], ◌++◌, arith, refl, sym, ap, not, ◌∷◌, ◌==◌, &&-true, every-append,
}
use sa.Prelude.Bytes.{Bytes}
use sa.Http.Url.Parts.{lacks}
use sa.Prompt.Text.{escape_xml_byte, escape_xml}

escape_xml_byte-lacks :
    (c : ℕ) → (lacks b'<' (escape_xml_byte c) && lacks b'>' (escape_xml_byte c)) ≡ true
unfolding escape_xml_byte
escape_xml_byte-lacks c = ground arith

-- Two escaped bytes at the front of the same text are the same byte.
escape_xml_byte-inj :
    (c e : ℕ) (s t : Bytes) → escape_xml_byte c ++ s ≡ escape_xml_byte e ++ t → (c ≡ e) × (s ≡ t)
unfolding escape_xml_byte
escape_xml_byte-inj c e s t h = ground arith

escape_xml_byte-some : (c : ℕ) (s : Bytes) → escape_xml_byte c ++ s ≢ []
unfolding escape_xml_byte
escape_xml_byte-some c s h = ground arith

lacks-append : (c : ℕ) (s t : Bytes) → lacks c s ≡ true → lacks c t ≡ true → lacks c (s ++ t) ≡ true
lacks-append c s t h k = rw (every-append (λ x. not (x == c)) s t, h, k)

escape_xml-lacks :
    (s : Bytes) → (lacks b'<' (escape_xml s) ≡ true) × (lacks b'>' (escape_xml s) ≡ true)
unfolding escape_xml
escape_xml-lacks [] = (refl, refl)
escape_xml-lacks (c ∷ s) =
    let both =
      &&-true (lacks b'<' (escape_xml_byte c)) (lacks b'>' (escape_xml_byte c))
        (escape_xml_byte-lacks c) in
    let rest = escape_xml-lacks s in
    (
      lacks-append b'<' (escape_xml_byte c) (escape_xml s) both.0 rest.0,
      lacks-append b'>' (escape_xml_byte c) (escape_xml s) both.1 rest.1,
    )

escape_xml-inj : (s t : Bytes) → escape_xml s ≡ escape_xml t → s ≡ t
unfolding escape_xml
escape_xml-inj [] [] h = refl
escape_xml-inj [] (e ∷ t) h = absurd (escape_xml_byte-some e (escape_xml t) (sym h))
escape_xml-inj (c ∷ s) [] h = absurd (escape_xml_byte-some c (escape_xml s) h)
escape_xml-inj (c ∷ s) (e ∷ t) h =
    let same = escape_xml_byte-inj c e (escape_xml s) (escape_xml t) h in
    rw (same.0) (ap (◌∷◌ e) (escape_xml-inj s t (same.1)))

-- An escaped text has no angle bracket, and it is the escape of one text only.
pub escape_xml_lem :
    (s : Bytes)
    → (lacks b'<' (escape_xml s) ≡ true)
      × (lacks b'>' (escape_xml s) ≡ true)
      × ((t : Bytes) → escape_xml t ≡ escape_xml s → t ≡ s)
escape_xml_lem s = let free = escape_xml-lacks s in (free.0, free.1, λ t h. escape_xml-inj t s h)
