-- ===== src/Json/Heap/Delete/Unlinks.antt =====
-- tinyjson.h: `cJSON_DeleteItemFromArray`, against the list of the children.
use sa.Prelude.{
  ℕ, ◌<◌, ◌≡◌, refl, ap, ◌∙◌, ◌⊎◌, inl, inr, true, false, none, some, List, [], ◌∷◌, ◌++◌, ◌==◌,
  length, All, All-append,
}
use sa.Json.Heap.{Node, Heap}
use sa.Json.Heap.Chain.{Differ, Distinct, ==_sym, IsList, Chain-frame, item_from_lem}
use sa.Json.Heap.Delete.{unlink_item, delete_found, delete_child, heap_delete_item}
use sa.Json.Heap.Delete.Frees.{
  addresses, All-split, Distinct-split, Differ-swap, Planted, Released, Planted-frame,
  delete_from-Released, Forest, bare, tree,
}
use sa.Json.Heap.Delete.Apart.{get_elem?-at}
use sa.Json.Heap.Delete.Cuts.{cut}
use sa.Json.Heap.Delete.Takes.{all_cut}

module _ {D : Type 0} where
  unreleased :
      (h3 h4 : Heap D) (a : ℕ) (cs : Forest) (xs : List ℕ)
      → Released h3 h4 (addresses (tree a cs bare))
      → Differ a xs
      → All (λ x. Differ x (addresses cs)) xs
      → All (λ x. h4.node x ≡ h3.node x) xs
  unreleased h3 h4 a cs [] gone da dc = tt
  unreleased h3 h4 a cs (x ∷ xs) gone da dc = (
    gone.1 x (==_sym x a da.0, All-append (λ y. (y == x) ≡ false) (addresses cs) [] dc.0 tt),
    unreleased h3 h4 a cs xs gone da.1 dc.1,
  )

  framed :
      (h h3 : Heap D) (xs ys : List ℕ)
      → ((x : ℕ) → Differ x ys → h3.node x ≡ h.node x)
      → All (λ x. Differ x ys) xs
      → All (λ x. h3.node x ≡ h.node x) xs
  framed h h3 [] ys frame d = tt
  framed h h3 (x ∷ xs) ys frame d = (frame x d.0, framed h h3 xs ys frame d.1)

  -- Where an array has the children `us ++ a ∷ vs`, and what hangs on `a` is apart from them,
  -- `cJSON_DeleteItemFromArray` with the index of `a` leaves the array with the children `us ++ vs`,
  -- linked both ways, and has released `a` and what hangs on it.
  pub heap_delete_item-IsList :
      (fuel : ℕ) (h : Heap D) (array : ℕ) (us : List ℕ) (a : ℕ) (vs : List ℕ) (c : Node D)
      (cs : Forest)
      → IsList h array (us ++ a ∷ vs)
      → h.node a ≡ some c
      → ((c.is_ref ≡ true) × (cs ≡ bare)) ⊎ ((c.is_ref ≡ false) × Planted h c.child cs)
      → Distinct (addresses (tree a cs bare))
      → All (λ x. Differ x (array ∷ us ++ a ∷ vs)) (addresses cs)
      → length (addresses (tree a cs bare)) < fuel
      → (h' : Heap D) × (heap_delete_item fuel h array (length us) ≡ some h')
        × IsList h' array (us ++ vs)
        × All (λ x. h'.node x ≡ none) (addresses (tree a cs bare))
  unfolding heap_delete_item
  heap_delete_item-IsList fuel h array us a vs c cs (p, at_array, chain, distinct) at_item own alone
        apart enough =
      let whole = array ∷ us ++ a ∷ vs in
      let step = all_cut fuel h array us a vs c (p, at_array, chain, distinct) at_item in
      let h3 = step.0 in
      let planted : Planted h3 (some a) (tree a cs bare) = (
        refl,
        (
          cut c,
          step.3,
          elim own [
            | inl reference ↦ inl reference
            | inr (owns, child) ↦ inr (
              owns,
              Planted-frame h h3 c.child cs (framed h h3 (addresses cs) whole step.4 apart) child,
            )
          ],
          refl,
        ),
      ) in
      let gone = delete_from-Released fuel h3 (some a) (tree a cs bare) planted alone enough in
      let h4 = gone.0 in
      let outside = Differ-swap whole (addresses cs) apart in
      let outside_rest = All-split (λ x. Differ x (addresses cs)) us (a ∷ vs) outside.1 in
      let of_array = All-split (λ x. (x == array) ≡ false) us (a ∷ vs) distinct.0 in
      let parts = Distinct-split us (a ∷ vs) distinct.1 in
      let kept =
        unreleased h3 h4 a cs (array ∷ us ++ vs) gone.2
          (
            ==_sym a array of_array.1.0,
            All-append (λ x. (x == a) ≡ false) us vs parts.1.1.0 parts.1.0.0,
          )
          (
            outside.0,
            All-append (λ x. Differ x (addresses cs)) us vs outside_rest.0 outside_rest.1.1,
          ) in
      let left = step.2 in
      (
        h4,
        ap (delete_child fuel h array (length us)) at_array
            ∙ (ap (delete_found fuel h array) (
                  item_from_lem (length us) h none p.child (us ++ a ∷ vs) chain
                  ∙ get_elem?-at us a vs)
                ∙ (ap (unlink_item fuel h array a) at_item ∙ (step.1 ∙ gone.1))),
        (
          left.0,
          kept.0 ∙ left.1,
          Chain-frame h3 h4 none (Node.child (left.0)) (us ++ vs) kept.1 left.2,
          left.3,
        ),
        gone.2.0,
      )
