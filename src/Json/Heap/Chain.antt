-- ===== src/Json/Heap/Chain.antt =====
-- tinyjson.h: the child list in memory: `next` and `prev` link the nodes of a list.
use sa.Prelude.{
  ℕ, zero, suc, ◌<◌, ◌≡◌, refl, ◌∙◌, false, Option, none, some, List, [], ◌∷◌, arith, ◌==◌, ==_refl,
  length, All, ◌≤◌, ap, get_elem?,
}
use sa.Json.Heap.{
  write, last_from, change, Node, Heap, last_next, last_step, changed, item_step, item_from,
  one_more, count_step, count_from,
}

abbrev pub Differ : ℕ → List ℕ → Type 0
Differ a xs = All (λ x. (x == a) ≡ false) xs

abbrev pub Distinct : List ℕ → Type 0
Distinct [] = Unit
Distinct (a ∷ xs) = Differ a xs × Distinct xs

pub ==_sym : (a b : ℕ) → (a == b) ≡ false → (b == a) ≡ false
==_sym a b h = ground arith

abbrev pub last_of : ℕ → List ℕ → ℕ
last_of a [] = a
last_of a (b ∷ xs) = last_of b xs

pub last_of-Differ : (a b : ℕ) (xs : List ℕ) → Differ a (b ∷ xs) → (last_of b xs == a) ≡ false
last_of-Differ a b [] h = h.0
last_of-Differ a b (c ∷ xs) h = last_of-Differ a c xs h.1

module _ {D : Type 0} where
  -- From this address on stand the nodes of the list, linked both ways.
  abbrev pub Chain : Heap D → (prev from : Option ℕ) → List ℕ → Type 0
  Chain h prev from [] = from ≡ none
  Chain h prev from (a ∷ xs) =
      (from ≡ some a)
      × ((n : Node D) × (h.node a ≡ some n) × (n.prev ≡ prev) × Chain h (some a) n.next xs)

  -- The children of a node.
  abbrev pub IsList : Heap D → (parent : ℕ) → List ℕ → Type 0
  IsList h parent xs =
      (p : Node D) × (h.node parent ≡ some p) × Chain h none p.child xs × Distinct (parent ∷ xs)

  pub write_same : (h : Heap D) (a : ℕ) (n : Node D) → (write h a n).node a ≡ some n
  write_same h a n = rw (==_refl a) refl

  pub write_other :
      (h : Heap D) (a : ℕ) (n : Node D) (b : ℕ) → (b == a) ≡ false → (write h a n).node b ≡ h.node b
  write_other h a n b e = rw e refl

  pub change_lem :
      (h : Heap D) (a : ℕ) (n : Node D) (f : Node D → Node D)
      → h.node a ≡ some n
      → change h a f ≡ some (write h a (f n))
  change_lem h a n f e = ap (changed h a f) e

  -- A list that no write has touched.
  pub Chain-frame :
      (h h' : Heap D) (prev from : Option ℕ) (xs : List ℕ)
      → All (λ x. h'.node x ≡ h.node x) xs
      → Chain h prev from xs
      → Chain h' prev from xs
  Chain-frame h h' prev from [] same c = c
  Chain-frame h h' prev from (a ∷ xs) same c = (
    c.0,
    (c.1.0, same.0 ∙ c.1.1, c.1.2, Chain-frame h h' (some a) (Node.next (c.1.0)) xs same.1 c.1.3),
  )

  pub last_from_lem :
      (fuel : ℕ) (h : Heap D) (prev from : Option ℕ) (a : ℕ) (xs : List ℕ)
      → length xs < fuel
      → Chain h prev from (a ∷ xs)
      → last_from fuel h a ≡ some (last_of a xs)
  unfolding last_from
  last_from_lem zero h prev from a xs less c = absurd (omega arith)
  last_from_lem (suc fuel) h prev from a [] less c =
      ap (last_step (last_from fuel h) a) (c.1.1) ∙ ap (last_next (last_from fuel h) a) (c.1.3)
  last_from_lem (suc fuel) h prev from a (b ∷ xs) less c =
      ap (last_step (last_from fuel h) a) (c.1.1)
      ∙ (ap (last_next (last_from fuel h) a) (c.1.3.0)
          ∙ last_from_lem fuel h (some a) (Node.next (c.1.0)) b xs (omega arith) c.1.3)

  -- The walks find what the list has.
  pub item_from_lem :
      (index : ℕ) (h : Heap D) (prev from : Option ℕ) (xs : List ℕ)
      → Chain h prev from xs
      → item_from index h from ≡ get_elem? xs index
  unfolding item_from
  item_from_lem zero h prev from [] c = c
  item_from_lem zero h prev from (a ∷ xs) c = c.0
  item_from_lem (suc index) h prev from [] c = rw c refl
  item_from_lem (suc index) h prev from (a ∷ xs) c =
      ap (item_from (suc index) h) (c.0)
      ∙ (ap (item_step (item_from index h)) (c.1.1)
          ∙ item_from_lem index h (some a) (Node.next (c.1.0)) xs c.1.3)

  pub count_from_lem :
      (fuel : ℕ) (h : Heap D) (prev from : Option ℕ) (xs : List ℕ)
      → length xs ≤ fuel
      → Chain h prev from xs
      → count_from fuel h from ≡ some (length xs)
  unfolding count_from
  count_from_lem fuel h prev from [] less c = ap (count_from fuel h) c ∙ nothing fuel
    where
      nothing : (fuel : ℕ) → count_from fuel h none ≡ some 0
      nothing zero = refl
      nothing (suc fuel) = refl
  count_from_lem zero h prev from (a ∷ xs) less c = absurd (omega arith)
  count_from_lem (suc fuel) h prev from (a ∷ xs) less c =
      ap (count_from (suc fuel) h) (c.0)
      ∙ (ap (count_step (count_from fuel h)) (c.1.1)
          ∙ ap one_more (count_from_lem fuel h (some a) (Node.next (c.1.0)) xs (omega arith) c.1.3))
