-- ===== src/Json/Heap/Delete/Frees.antt =====
-- tinyjson.h: what `cJSON_Delete` releases.
use sa.Prelude.{
  ℕ, ◌≡◌, ◌∙◌, ◌⊎◌, inl, inr, true, false, Option, none, some, List, [], ◌∷◌, ◌++◌, ◌==◌, All, zero,
  suc, ◌<◌, refl, sym, ap, subst, arith, if◌then◌else◌, length, length-append, ==_refl, All-append,
}
use sa.Json.Heap.{Node, Heap, put_node, then_do}
use sa.Json.Heap.Chain.{Differ, Distinct, ==_sym}
use sa.Json.Heap.Delete.{freed, delete_step, delete_from}

-- The shape of a list of nodes: an item, what hangs on it, and the items behind it.
pub data Forest : Type 0 where
  bare : Forest
  tree : (a : ℕ) → (children siblings : Forest) → Forest

abbrev pub addresses : Forest → List ℕ
addresses bare = []
addresses (tree a cs ss) = a ∷ addresses cs ++ addresses ss

pub All-split : (Q : ℕ → Type 0) (xs ys : List ℕ) → All Q (xs ++ ys) → All Q xs × All Q ys
All-split Q [] ys h = (tt, h)
All-split Q (x ∷ xs) ys h = let rest = All-split Q xs ys h.1 in ((h.0, rest.0), rest.1)

pub Distinct-split :
    (xs ys : List ℕ) → Distinct (xs ++ ys) → Distinct xs × (Distinct ys × All (λ y. Differ y xs) ys)
Distinct-split [] ys h = (tt, (h, everywhere ys))
  where
    everywhere : (ys : List ℕ) → All (λ y. Differ y []) ys
    everywhere [] = tt
    everywhere (y ∷ ys) = (tt, everywhere ys)
Distinct-split (x ∷ xs) ys h =
    let rest = Distinct-split xs ys h.1 in
    let apart = All-split (λ y. (y == x) ≡ false) xs ys h.0 in
    ((apart.0, rest.0), (rest.1.0, both ys apart.1 rest.1.1))
  where
    both :
        (ys : List ℕ)
        → All (λ y. (y == x) ≡ false) ys
        → All (λ y. Differ y xs) ys
        → All (λ y. Differ y (x ∷ xs)) ys
    both [] a d = tt
    both (y ∷ ys) a d = ((==_sym y x a.0, d.0), both ys a.1 d.1)

-- Apart from one list as from the other: the two have nothing in common.
pub Differ-swap : (xs ys : List ℕ) → All (λ y. Differ y xs) ys → All (λ x. Differ x ys) xs
Differ-swap [] ys h = tt
Differ-swap (x ∷ xs) ys h = (first ys h, Differ-swap xs ys (later ys h))
  where
    first : (ys : List ℕ) → All (λ y. Differ y (x ∷ xs)) ys → Differ x ys
    first [] h = tt
    first (y ∷ ys) h = (==_sym x y h.0.0, first ys h.1)

    later : (ys : List ℕ) → All (λ y. Differ y (x ∷ xs)) ys → All (λ y. Differ y xs) ys
    later [] h = tt
    later (y ∷ ys) h = (h.0.1, later ys h.1)

module _ {D : Type 0} where
  -- The memory holds a list of that shape from there on. Nothing hangs on a reference: its children
  -- are another's.
  abbrev pub Planted : Heap D → Option ℕ → Forest → Type 0
  Planted h from bare = from ≡ none
  Planted h from (tree a cs ss) =
      (from ≡ some a)
      × ((n : Node D) × (h.node a ≡ some n)
          × (((n.is_ref ≡ true) × (cs ≡ bare)) ⊎ ((n.is_ref ≡ false) × Planted h n.child cs))
          × Planted h n.next ss)

  -- These nodes are released, and no other is changed.
  abbrev pub Released : (h h' : Heap D) → List ℕ → Type 0
  Released h h' xs = All (λ x. h'.node x ≡ none) xs × ((x : ℕ) → Differ x xs → h'.node x ≡ h.node x)

  pub Planted-frame :
      (h h' : Heap D) (from : Option ℕ) (f : Forest)
      → All (λ x. h'.node x ≡ h.node x) (addresses f)
      → Planted h from f
      → Planted h' from f
  Planted-frame h h' from bare same p = p
  Planted-frame h h' from (tree a cs ss) same p =
      let rest = All-split (λ x. h'.node x ≡ h.node x) (addresses cs) (addresses ss) same.1 in
      (
        p.0,
        (
          p.1.0,
          same.0 ∙ p.1.1,
          elim (p.1.2) [
            | inl reference ↦ inl reference
            | inr (own, child) ↦ inr (own, Planted-frame h h' (Node.child (p.1.0)) cs rest.0 child)
          ],
          Planted-frame h h' (Node.next (p.1.0)) ss rest.1 p.1.3,
        ),
      )

  -- What is released of the node itself and of what hangs on it.
  release_child :
      (fuel : ℕ) (h : Heap D) (n : Node D) (cs : Forest)
      → ((n.is_ref ≡ true) × (cs ≡ bare)) ⊎ ((n.is_ref ≡ false) × Planted h n.child cs)
      → (Planted h n.child cs
          → (h' : Heap D) × (delete_from fuel h n.child ≡ some h') × Released h h' (addresses cs))
      → (h' : Heap D) × ((if n.is_ref then some h else delete_from fuel h n.child) ≡ some h')
        × Released h h' (addresses cs)
  release_child fuel h n cs (inl (reference, none_own)) del = (
    h,
    rw reference refl,
    subst (λ f. Released h h (addresses f)) (sym none_own) (tt, λ x d. refl),
  )
  release_child fuel h n cs (inr (own, child)) del =
      let done = del child in (done.0, rw own (done.1), done.2)

  release_node :
      (h h1 h3 : Heap D) (a : ℕ) (cs ss : List ℕ)
      → Distinct (a ∷ cs ++ ss)
      → Released h h1 cs
      → Released (record h1 { node = put_node h1.node a none }) h3 ss
      → Released h h3 (a ∷ cs ++ ss)
  release_node h h1 h3 a cs ss distinct first later =
      let parts = Distinct-split cs ss distinct.1 in
      let apart = All-split (λ x. (x == a) ≡ false) cs ss distinct.0 in
      (
        (
          later.1 a apart.1 ∙ cleared a,
          All-append (λ x. h3.node x ≡ none) cs ss
              (before cs apart.0 (Differ-swap cs ss parts.1.1) first.0) later.0,
        ),
        λ x d.
            let e = All-split (λ y. (y == x) ≡ false) cs ss d.1 in
            later.1 x e.1 ∙ (skipped x (==_sym a x d.0) ∙ first.1 x e.0),
      )
    where
      cleared : (x : ℕ) → put_node h1.node x none x ≡ none
      cleared x = rw (==_refl x) refl

      skipped : (x : ℕ) → (x == a) ≡ false → put_node h1.node a none x ≡ h1.node x
      skipped x e = rw e refl

      before :
          (xs : List ℕ)
          → All (λ x. (x == a) ≡ false) xs
          → All (λ x. Differ x ss) xs
          → All (λ x. h1.node x ≡ none) xs
          → All (λ x. h3.node x ≡ none) xs
      before [] e d r = tt
      before (x ∷ xs) e d r = (later.1 x d.0 ∙ (skipped x e.0 ∙ r.0), before xs e.1 d.1 r.1)

  -- A list of nodes in memory, with what hangs on them, is released by `cJSON_Delete`, each node once
  -- and after its last use; no other node is touched, the children of a reference among them. As many
  -- rounds as there are nodes, and one, are enough.
  pub delete_from-Released :
      (fuel : ℕ) (h : Heap D) (from : Option ℕ) (f : Forest)
      → Planted h from f
      → Distinct (addresses f)
      → length (addresses f) < fuel
      → (h' : Heap D) × (delete_from fuel h from ≡ some h') × Released h h' (addresses f)
  unfolding delete_from
  delete_from-Released zero h from f p distinct enough = absurd (omega arith)
  delete_from-Released (suc fuel) h from bare p distinct enough =
      (h, ap (delete_from (suc fuel) h) p, (tt, λ x d. refl))
  delete_from-Released (suc fuel) h from (tree a cs ss) p distinct enough =
      let n = p.1.0 in
      let parts = Distinct-split (addresses cs) (addresses ss) distinct.1 in
      let apart = All-split (λ x. (x == a) ≡ false) (addresses cs) (addresses ss) distinct.0 in
      let size = length-append (addresses cs) (addresses ss) in
      let inner = release_child fuel h n cs p.1.2 (λ q.
        delete_from-Released fuel h (Node.child n) cs q parts.0 (omega (arith, size, enough))) in
      let h1 = inner.0 in
      let h2 = record h1 { node = put_node h1.node a none } in
      let kept : h1.node a ≡ some n = inner.2.1 a apart.0 ∙ p.1.1 in
      let outer =
        delete_from-Released fuel h2 (Node.next n) ss
          (Planted-frame h h2 (Node.next n) ss
            (unmoved h h1 a (addresses cs) (addresses ss) apart.1 parts.1.1 inner.2.1) p.1.3)
          parts.1.0 (omega (arith, size, enough)) in
      (
        outer.0,
        ap (delete_from (suc fuel) h) (p.0)
            ∙ (ap (delete_step (delete_from fuel) h a) (p.1.1)
                ∙ (ap
                      (λ o.
                        then_do o (λ h1.
                          then_do (freed h1 a (h1.node a)) (λ h2. delete_from fuel h2 n.next)))
                      (inner.1)
                    ∙ (ap (λ o. then_do (freed h1 a o) (λ h2. delete_from fuel h2 n.next)) kept
                        ∙ outer.1))),
        release_node h h1 outer.0 a (addresses cs) (addresses ss) distinct inner.2 outer.2,
      )
    where
      unmoved :
          (h h1 : Heap D) (a : ℕ) (cs ss : List ℕ)
          → Differ a ss
          → All (λ y. Differ y cs) ss
          → ((x : ℕ) → Differ x cs → h1.node x ≡ h.node x)
          → All (λ x. put_node h1.node a none x ≡ h.node x) ss
      unmoved h h1 a cs [] apart d same = tt
      unmoved h h1 a cs (y ∷ ss) apart d same =
          (rw (apart.0) (same y d.0), unmoved h h1 a cs ss apart.1 d.1 same)
