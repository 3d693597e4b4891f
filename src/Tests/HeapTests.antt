-- ===== src/Tests/HeapTests.antt =====
-- tinyjson.h: the nodes in memory at concrete inputs.
use sa.Prelude.{
  ℕ, ◌≡◌, refl, inr, Option, none, some, [], ◌∷◌, arith, ltb, ◌==◌, if◌then◌else◌, All,
}
use sa.Json.Heap.{new_node, cj_append_child, item_from, null_node, array_node, Node, Heap}
use sa.Json.Heap.Chain.{IsList}
use sa.Json.Heap.Appends.{cj_append_child-IsList}
use sa.Json.Heap.Delete.{delete_from, heap_delete_item}
use sa.Json.Heap.Delete.Unlinks.{heap_delete_item-IsList}
use sa.Json.Heap.Delete.Frees.{
  addresses, Planted, Released, delete_from-Released, Forest, bare, tree,
}

-- An array, and two nodes beside it.
abbrev beside : Heap ℕ
beside = record {
  node = λ a. if ltb a 3 then some (new_node (if a == 0 then array_node else null_node)) else none;
  free = 3;
}

no_children : IsList beside 0 []
no_children = (new_node array_node, refl, refl, (tt, tt))

cj_append_child-IsList_example :
    (h' : Heap ℕ) × (cj_append_child 1 beside 0 2 ≡ some h') × IsList h' 0 (2 ∷ [])
cj_append_child-IsList_example =
    cj_append_child-IsList 1 beside 0 2 [] (new_node null_node) no_children refl (refl, tt)
      (omega arith)

-- An array at 0 with the elements 1 and 2.
abbrev linked : Heap ℕ
linked = record {
  node = λ a.
      if a == 0
      then some (record (new_node array_node) { child = some 1 })
      else if a == 1
      then some (record (new_node null_node) { next = some 2; parent = some 0 })
      else if a == 2
      then some (record (new_node null_node) { prev = some 1; parent = some 0 })
      else none;
  free = 3;
}

abbrev shape : Forest
shape = tree 0 (tree 1 bare (tree 2 bare bare)) bare

linked-Planted : Planted linked (some 0) shape
linked-Planted = (
  refl,
  (
    record (new_node array_node) { child = some 1 },
    refl,
    inr (
      refl,
      (
        refl,
        (
          record (new_node null_node) { next = some 2; parent = some 0 },
          refl,
          inr (refl, refl),
          (
            refl,
            (
              record (new_node null_node) { prev = some 1; parent = some 0 },
              refl,
              inr (refl, refl),
              refl,
            ),
          ),
        ),
      ),
    ),
    refl,
  ),
)

delete_from-Released_example :
    (h' : Heap ℕ) × (delete_from 4 linked (some 0) ≡ some h') × Released linked h' (addresses shape)
delete_from-Released_example =
    delete_from-Released 4 linked (some 0) shape linked-Planted
      ((refl, (refl, tt)), ((refl, tt), (tt, tt))) (omega arith)

abbrev node_of : Option (Heap ℕ) → ℕ → Option (Node ℕ)
node_of none a = none
node_of (some h) a = h.node a

-- The second element is deleted: the first stands alone.
delete_runs :
    (node_of (heap_delete_item 4 linked 0 1) 2 ≡ none)
    × (node_of (heap_delete_item 4 linked 0 1) 1
        ≡ some (record (new_node null_node) { parent = some 0 }))
unfolding heap_delete_item delete_from item_from
delete_runs = (refl, refl)

linked-IsList : IsList linked 0 (1 ∷ 2 ∷ [])
linked-IsList = (
  record (new_node array_node) { child = some 1 },
  refl,
  (
    refl,
    (
      record (new_node null_node) { next = some 2; parent = some 0 },
      refl,
      refl,
      (refl, (record (new_node null_node) { prev = some 1; parent = some 0 }, refl, refl, refl)),
    ),
  ),
  ((refl, (refl, tt)), ((refl, tt), (tt, tt))),
)

heap_delete_item-IsList_example :
    (h' : Heap ℕ) × (heap_delete_item 2 linked 0 1 ≡ some h')
    × IsList h' 0 (1 ∷ [])
    × All (λ x. h'.node x ≡ none) (addresses (tree 2 bare bare))
heap_delete_item-IsList_example =
    heap_delete_item-IsList 2 linked 0 (1 ∷ []) 2 []
      (record (new_node null_node) { prev = some 1; parent = some 0 }) bare linked-IsList refl
      (inr (refl, refl)) (tt, tt) tt (omega arith)
