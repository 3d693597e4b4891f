-- ===== src/Json/Heap/Delete/Cuts.antt =====
-- tinyjson.h: what `cJSON_DeleteItemFromArray` writes before it releases the item.
use sa.Prelude.{
  ℕ, ◌≡◌, refl, sym, ap, subst, ◌∙◌, false, Option, none, some, List, [], ◌∷◌, ◌==◌, All,
}
use sa.Json.Heap.{write, then_do, change, Node, Heap}
use sa.Json.Heap.Chain.{
  Differ, Distinct, ==_sym, Chain, write_same, write_other, change_lem, Chain-frame,
}
use sa.Json.Heap.Delete.{delete_from, change_at, unlink_before, unlink_item}
use sa.Json.Heap.Delete.Apart.{no_node, same_head}

module _ {D : Type 0} where
  -- The item's own node, cut off.
  abbrev pub cut : Node D → Node D
  cut c = record c { next = none; prev = none; parent = none }

  -- What the steps before the release do, where `k` is the node that leads to the item.
  pub record Cut (h h3 : Heap D) (k a : ℕ) (c nk : Node D) (vs : List ℕ) : Type 0 where
    pub lead : h3.node k ≡ some nk
    pub item : h3.node a ≡ some (cut c)
    pub behind :
        (v : ℕ) (ws : List ℕ) (n : Node D)
        → vs ≡ v ∷ ws
        → h.node v ≡ some n
        → h3.node v ≡ some (record n { prev = c.prev })
    pub others :
        (x : ℕ)
        → (x == k) ≡ false
        → (x == a) ≡ false
        → ((v : ℕ) (ws : List ℕ) → vs ≡ v ∷ ws → (x == v) ≡ false)
        → h3.node x ≡ h.node x

  -- From the node that leads to the item on.
  abbrev pub release : (fuel : ℕ) → (a : ℕ) → Option (Heap D) → Option (Heap D)
  release fuel a o =
      then_do o (λ h2. then_do (change h2 a cut) (λ h3. delete_from fuel h3 (some a)))

  pub same_node : (m n : Node D) → some m ≡ some n → m ≡ n
  same_node m n e = cc

  pub unlink_item-Cut :
      (fuel : ℕ) (h : Heap D) (array k a : ℕ) (c nk : Node D) (vs : List ℕ)
      → unlink_before h array c ≡ some (write h k nk)
      → h.node a ≡ some c
      → Chain h (some a) c.next vs
      → (a == k) ≡ false
      → Differ a vs
      → Differ k vs
      → (h3 : Heap D) × (unlink_item fuel h array a (some c) ≡ delete_from fuel h3 (some a))
        × Cut h h3 k a c nk vs
  unlink_item-Cut fuel h array k a c nk [] led at_item chain apart da dk =
      let h1 = write h k nk in
      let h3 = write h1 a (cut c) in
      (
        h3,
        ap
              (λ o.
                then_do o
                  (λ h1. release fuel a (change_at h1 c.next (λ n. record n { prev = c.prev }))))
              led
            ∙ (ap (λ o. release fuel a (change_at h1 o (λ n. record n { prev = c.prev }))) chain
                ∙ ap (λ o. then_do o (λ h3. delete_from fuel h3 (some a)))
                    (change_lem h1 a c cut (write_other h k nk a apart ∙ at_item))),
        record {
          lead = write_other h1 a (cut c) k (==_sym a k apart) ∙ write_same h k nk;
          item = write_same h1 a (cut c);
          behind = λ v ws n e. absurd (no_node v ws e);
          others = λ x xk xa xs. write_other h1 a (cut c) x xa ∙ write_other h k nk x xk;
        },
      )
  unlink_item-Cut fuel h array k a c nk (v ∷ ws) led at_item chain apart da dk =
      let h1 = write h k nk in
      let nv = chain.1.0 in
      let v2 = record nv { prev = c.prev } in
      let h2 = write h1 v v2 in
      let h3 = write h2 a (cut c) in
      let av = ==_sym v a da.0 in
      let kv = ==_sym v k dk.0 in
      (
        h3,
        ap
              (λ o.
                then_do o
                  (λ h1. release fuel a (change_at h1 c.next (λ n. record n { prev = c.prev }))))
              led
            ∙ (ap (λ o. release fuel a (change_at h1 o (λ n. record n { prev = c.prev }))) chain.0
                ∙ (ap (release fuel a) (
                      change_lem h1 v nv (λ n. record n { prev = c.prev })
                        (write_other h k nk v dk.0 ∙ chain.1.1))
                    ∙ ap (λ o. then_do o (λ h3. delete_from fuel h3 (some a)))
                        (change_lem h2 a c cut
                          (write_other h1 v v2 a av ∙ (write_other h k nk a apart ∙ at_item))))),
        record {
          lead =
              write_other h2 a (cut c) k (==_sym a k apart)
              ∙ (write_other h1 v v2 k kv ∙ write_same h k nk);
          item = write_same h2 a (cut c);
          behind = λ w us n e at_w.
              first_behind h h3 v w ws us nv n c.prev e chain.1.1 at_w
                (write_other h2 a (cut c) v da.0 ∙ write_same h1 v v2);
          others = λ x xk xa xs.
              write_other h2 a (cut c) x xa
              ∙ (write_other h1 v v2 x (xs v ws refl) ∙ write_other h k nk x xk);
        },
      )
    where
      first_behind :
          (h h3 : Heap D) (v w : ℕ) (vs ws : List ℕ) (m n : Node D) (q : Option ℕ)
          → v ∷ vs ≡ w ∷ ws
          → h.node v ≡ some m
          → h.node w ≡ some n
          → h3.node v ≡ some (record m { prev = q })
          → h3.node w ≡ some (record n { prev = q })
      first_behind h h3 v w vs ws m n q e at_m at_n done =
          let same = same_head v w vs ws e in
          ap h3.node (sym same)
          ∙ (done
              ∙ ap (λ (k : Node D). some (record k { prev = q }))
                  (same_node m n (sym at_m ∙ (ap h.node same ∙ at_n))))

  others_all :
      (h h3 : Heap D) (k a : ℕ) (c nk : Node D) (vs : List ℕ)
      → Cut h h3 k a c nk vs
      → (xs : List ℕ) → Differ k xs
      → Differ a xs
      → ((v : ℕ) (ws : List ℕ) → vs ≡ v ∷ ws → Differ v xs)
      → All (λ x. h3.node x ≡ h.node x) xs
  others_all h h3 k a c nk vs done [] dk da dv = tt
  others_all h h3 k a c nk vs done (x ∷ xs) dk da dv = (
    done.others x dk.0 da.0 (λ v ws e. (dv v ws e).0),
    others_all h h3 k a c nk vs done xs dk.1 da.1 (λ v ws e. (dv v ws e).1),
  )

  -- The nodes behind the item, the first of them linked back to what was before it.
  pub Chain-Cut :
      (h h3 : Heap D) (k a : ℕ) (c nk : Node D) (vs : List ℕ)
      → Cut h h3 k a c nk vs
      → Chain h (some a) c.next vs
      → Differ k vs
      → Differ a vs
      → Distinct vs
      → Chain h3 c.prev c.next vs
  Chain-Cut h h3 k a c nk [] done chain dk da d = chain
  Chain-Cut h h3 k a c nk (v ∷ ws) done chain dk da d = (
    chain.0,
    (
      record (chain.1.0) { prev = c.prev },
      done.behind v ws chain.1.0 refl chain.1.1,
      refl,
      Chain-frame h h3 (some v) (Node.next (chain.1.0)) ws
          (others_all h h3 k a c nk (v ∷ ws) done ws dk.1 da.1
            (λ w us e. subst (λ x. Differ x ws) (same_head v w ws us e) d.0))
          chain.1.3,
    ),
  )
