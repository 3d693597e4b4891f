-- ===== src/Json/Heap/Delete/Takes.antt =====
-- tinyjson.h: the list without the item, before its release.
use sa.Prelude.{
  ℕ, ◌≡◌, sym, ap, subst, ◌∙◌, false, Option, none, some, List, [], ◌∷◌, ◌++◌, ◌==◌, All,
  All-append,
}
use sa.Json.Heap.{Node, Heap}
use sa.Json.Heap.Chain.{Differ, ==_sym, last_of, last_of-Differ, Chain, IsList, change_lem}
use sa.Json.Heap.Delete.{delete_from, unlink_at, unlink_item}
use sa.Json.Heap.Delete.Frees.{All-split, Distinct-split}
use sa.Json.Heap.Delete.Apart.{Distinct-drop, Differ-last, head_of, apart_head}
use sa.Json.Heap.Delete.Links.{Chain-before, Chain-at, prev-at}
use sa.Json.Heap.Delete.Cuts.{cut, same_node, unlink_item-Cut, Chain-Cut, Cut}

module _ {D : Type 0} where
  -- The list without its first item.
  first_cut :
      (fuel : ℕ) (h : Heap D) (array a : ℕ) (vs : List ℕ) (c : Node D)
      → IsList h array (a ∷ vs)
      → h.node a ≡ some c
      → (h3 : Heap D) × (unlink_item fuel h array a (some c) ≡ delete_from fuel h3 (some a))
        × IsList h3 array vs
        × (h3.node a ≡ some (cut c))
        × ((x : ℕ) → Differ x (array ∷ a ∷ vs) → h3.node x ≡ h.node x)
  first_cut fuel h array a vs c (p, at_array, chain, distinct) at_item =
      let p2 = record p { child = c.next } in
      let none_before = prev-at h none p.child [] a vs c chain at_item in
      let rest =
        subst (λ (n : Node D). Chain h (some a) n.next vs)
          (same_node chain.1.0 c (sym chain.1.1 ∙ at_item)) chain.1.3 in
      let steps =
        unlink_item-Cut fuel h array array a c p2 vs
          (ap (unlink_at h array c.next) none_before
            ∙ change_lem h array p (λ n. record n { child = c.next }) at_array)
          at_item rest distinct.0.0 distinct.1.0 distinct.0.1 in
      (
        steps.0,
        steps.1,
        (
          p2,
          Cut.lead (steps.2),
          subst (λ q. Chain (steps.0) q c.next vs) none_before
              (Chain-Cut h steps.0 array a c p2 vs steps.2 rest distinct.0.1 distinct.1.0
                distinct.1.1),
          (distinct.0.1, distinct.1.1),
        ),
        Cut.item (steps.2),
        λ x d.
            Cut.others (steps.2) x (==_sym array x d.0) (==_sym a x d.1.0) (apart_head x vs d.1.1),
      )

  last_in :
      (h : Heap D) (prev from : Option ℕ) (b : ℕ) (bs xs : List ℕ)
      → Chain h prev from (b ∷ bs ++ xs)
      → (n : Node D) × (h.node (last_of b bs) ≡ some n)
  last_in h prev from b [] xs c = (c.1.0, c.1.1)
  last_in h prev from b (e ∷ bs) xs c = last_in h (some b) (Node.next (c.1.0)) e bs xs c.1.3

  others_but :
      (h h3 : Heap D) (k a : ℕ) (c nk : Node D) (vs : List ℕ)
      → Cut h h3 k a c nk vs
      → (xs : List ℕ) → Differ a xs
      → ((v : ℕ) (ws : List ℕ) → vs ≡ v ∷ ws → Differ v xs)
      → All (λ x. (x == k) ≡ false → h3.node x ≡ h.node x) xs
  others_but h h3 k a c nk vs done [] da dv = tt
  others_but h h3 k a c nk vs done (x ∷ xs) da dv = (
    λ xk. done.others x xk da.0 (λ v ws e. (dv v ws e).0),
    others_but h h3 k a c nk vs done xs da.1 (λ v ws e. (dv v ws e).1),
  )

  -- The list without an item behind others.
  later_cut :
      (fuel : ℕ) (h : Heap D) (array b : ℕ) (bs : List ℕ) (a : ℕ) (vs : List ℕ) (c : Node D)
      → IsList h array (b ∷ bs ++ a ∷ vs)
      → h.node a ≡ some c
      → (h3 : Heap D) × (unlink_item fuel h array a (some c) ≡ delete_from fuel h3 (some a))
        × IsList h3 array (b ∷ bs ++ vs)
        × (h3.node a ≡ some (cut c))
        × ((x : ℕ) → Differ x (array ∷ b ∷ bs ++ a ∷ vs) → h3.node x ≡ h.node x)
  later_cut fuel h array b bs a vs c (p, at_array, chain, distinct) at_item =
      let us = b ∷ bs in
      let k = last_of b bs in
      let of_array = All-split (λ x. (x == array) ≡ false) us (a ∷ vs) distinct.0 in
      let parts = Distinct-split us (a ∷ vs) distinct.1 in
      let apart = parts.1.1 in
      let at_last = last_in h none p.child b bs (a ∷ vs) chain in
      let n2 = record (at_last.0) { next = c.next } in
      let prev_is = prev-at h none p.child us a vs c chain at_item in
      let found = Chain-at h none p.child us a vs chain in
      let rest =
        subst (λ (n : Node D). Chain h (some a) n.next vs)
          (same_node found.0 c (sym found.1 ∙ at_item)) found.2 in
      let k_vs = Differ-last b bs vs apart.1 in
      let a_k = ==_sym k a (last_of-Differ a b bs apart.0) in
      let steps =
        unlink_item-Cut fuel h array k a c n2 vs
          (ap (unlink_at h array c.next) prev_is
            ∙ change_lem h k at_last.0 (λ n. record n { next = c.next }) at_last.1)
          at_item rest a_k parts.1.0.0 k_vs in
      let h3 = steps.0 in
      let done = steps.2 in
      (
        h3,
        steps.1,
        (
          p,
          done.others array (==_sym k array (last_of-Differ array b bs of_array.0))
                (==_sym a array of_array.1.0) (λ v ws e. apart_head array vs of_array.1.1 v ws e)
              ∙ at_array,
          Chain-before h h3 none p.child c.next b bs a vs chain parts.0
              (λ n same.
                done.lead
                ∙ ap (λ (m : Node D). some (record m { next = c.next }))
                    (same_node at_last.0 n (sym at_last.1 ∙ same)))
              (others_but h h3 k a c n2 vs done us apart.0
                (λ v ws e. head_of (λ x. Differ x us) vs apart.1 v ws e))
              (subst (λ q. Chain h3 q c.next vs) prev_is
                (Chain-Cut h h3 k a c n2 vs done rest k_vs parts.1.0.0 parts.1.0.1)),
          (
            All-append (λ x. (x == array) ≡ false) us vs of_array.0 of_array.1.1,
            Distinct-drop us a vs distinct.1,
          ),
        ),
        done.item,
        λ x d.
            let e = All-split (λ y. (y == x) ≡ false) us (a ∷ vs) d.1 in
            done.others x (==_sym k x (last_of-Differ x b bs e.0)) (==_sym a x e.1.0)
              (apart_head x vs e.1.1),
      )

  -- What of the list is left before the release.
  pub all_cut :
      (fuel : ℕ) (h : Heap D) (array : ℕ) (us : List ℕ) (a : ℕ) (vs : List ℕ) (c : Node D)
      → IsList h array (us ++ a ∷ vs)
      → h.node a ≡ some c
      → (h3 : Heap D) × (unlink_item fuel h array a (some c) ≡ delete_from fuel h3 (some a))
        × IsList h3 array (us ++ vs)
        × (h3.node a ≡ some (cut c))
        × ((x : ℕ) → Differ x (array ∷ us ++ a ∷ vs) → h3.node x ≡ h.node x)
  all_cut fuel h array [] a vs c l e = first_cut fuel h array a vs c l e
  all_cut fuel h array (b ∷ bs) a vs c l e = later_cut fuel h array b bs a vs c l e
