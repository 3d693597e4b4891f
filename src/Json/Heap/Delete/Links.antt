-- ===== src/Json/Heap/Delete/Links.antt =====
-- tinyjson.h: the nodes before and behind an item of a list.
use sa.Prelude.{ℕ, ◌≡◌, sym, ◌∙◌, false, Option, some, List, [], ◌∷◌, ◌++◌, ◌==◌, All}
use sa.Json.Heap.{Node, Heap}
use sa.Json.Heap.Chain.{Distinct, ==_sym, last_of, last_of-Differ, Chain}

-- What is before the item.
abbrev before_item : Option ℕ → List ℕ → Option ℕ
before_item prev [] = prev
before_item prev (b ∷ bs) = some (last_of b bs)

module _ {D : Type 0} where
  -- The nodes before the item, the last of them linked to what is behind it.
  pub Chain-before :
      (h h' : Heap D) (prev from next : Option ℕ) (b : ℕ) (bs : List ℕ) (a : ℕ) (vs : List ℕ)
      → Chain h prev from (b ∷ bs ++ a ∷ vs)
      → Distinct (b ∷ bs)
      → ((n : Node D)
          → h.node (last_of b bs) ≡ some n
          → h'.node (last_of b bs) ≡ some (record n { next = next }))
      → All (λ x. (x == last_of b bs) ≡ false → h'.node x ≡ h.node x) (b ∷ bs)
      → Chain h' (some (last_of b bs)) next vs
      → Chain h' prev from (b ∷ bs ++ vs)
  Chain-before h h' prev from next b [] a vs c d last others tail =
      (c.0, (record (c.1.0) { next = next }, last c.1.0 c.1.1, c.1.2, tail))
  Chain-before h h' prev from next b (e ∷ bs) a vs c d last others tail = (
    c.0,
    (
      c.1.0,
      others.0 (==_sym (last_of e bs) b (last_of-Differ b e bs d.0)) ∙ c.1.1,
      c.1.2,
      Chain-before h h' (some b) (Node.next (c.1.0)) next e bs a vs c.1.3 d.1 last others.1 tail,
    ),
  )

  -- The item in its list, with what is before it.
  pub Chain-at :
      (h : Heap D) (prev from : Option ℕ) (us : List ℕ) (a : ℕ) (vs : List ℕ)
      → Chain h prev from (us ++ a ∷ vs)
      → (c : Node D) × (h.node a ≡ some c) × Chain h (some a) c.next vs
  Chain-at h prev from [] a vs c = (c.1.0, c.1.1, c.1.3)
  Chain-at h prev from (b ∷ us) a vs c = Chain-at h (some b) (Node.next (c.1.0)) us a vs c.1.3

  pub prev-at :
      (h : Heap D) (prev from : Option ℕ) (us : List ℕ) (a : ℕ) (vs : List ℕ) (n : Node D)
      → Chain h prev from (us ++ a ∷ vs)
      → h.node a ≡ some n
      → n.prev ≡ before_item prev us
  prev-at h prev from [] a vs n c e = same_prev (c.1.0) n (sym c.1.1 ∙ e) ∙ c.1.2
    where
      same_prev : (m n : Node D) → some m ≡ some n → n.prev ≡ m.prev
      same_prev m n e = cc
  prev-at h prev from (b ∷ []) a vs n c e = prev-at h (some b) (Node.next (c.1.0)) [] a vs n c.1.3 e
  prev-at h prev from (b ∷ d ∷ us) a vs n c e =
      prev-at h (some b) (Node.next (c.1.0)) (d ∷ us) a vs n c.1.3 e
