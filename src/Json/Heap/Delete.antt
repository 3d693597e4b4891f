-- ===== src/Json/Heap/Delete.antt =====
-- tinyjson.h: `cJSON_Delete` and `cJSON_DeleteItemFromArray` on memory. A use of a node after its
-- release, and a second release, give none. The strings of a node are values here: their own release
-- is left out.
pub mod Frees
pub mod Apart
pub mod Links
pub mod Cuts
pub mod Takes
pub mod Unlinks
use sa.Prelude.{ℕ, zero, suc, Option, none, some, if◌then◌else◌}
use sa.Json.Heap.{put_node, then_do, change, item_from, Node, Heap}

module _ {D : Type 0} where
  abbrev pub freed : Heap D → ℕ → Option (Node D) → Option (Heap D)
  freed h a none = none
  freed h a (some n) = some (record h { node = put_node h.node a none })

  -- One round of the loop, and what follows: `delete` is the call on the child and the rest.
  abbrev pub delete_step :
      (delete : Heap D → Option ℕ → Option (Heap D))
      → Heap D
      → ℕ
      → Option (Node D)
      → Option (Heap D)
  delete_step delete h a none = none
  delete_step delete h a (some n) =
      then_do (if n.is_ref then some h else delete h n.child)
        (λ h1. then_do (freed h1 a (h1.node a)) (λ h2. delete h2 n.next))

  -- `cJSON_Delete`: an item with the items behind it and with what hangs on them.
  unfoldable pub delete_from : (fuel : ℕ) → Heap D → Option ℕ → Option (Heap D)
  delete_from fuel h none = some h
  delete_from zero h (some a) = none
  delete_from (suc fuel) h (some a) = delete_step (delete_from fuel) h a (h.node a)

  abbrev pub change_at : Heap D → Option ℕ → (Node D → Node D) → Option (Heap D)
  change_at h none f = some h
  change_at h (some a) f = change h a f

  -- The node before an item, or the array, gets the item's `next`.
  abbrev pub unlink_at : Heap D → (array : ℕ) → (next prev : Option ℕ) → Option (Heap D)
  unlink_at h array next none = change h array (λ n. record n { child = next })
  unlink_at h array next (some b) = change h b (λ n. record n { next = next })

  abbrev pub unlink_before : Heap D → (array : ℕ) → Node D → Option (Heap D)
  unlink_before h array c = unlink_at h array c.next c.prev

  abbrev pub unlink_item : (fuel : ℕ) → Heap D → (array a : ℕ) → Option (Node D) → Option (Heap D)
  unlink_item fuel h array a none = none
  unlink_item fuel h array a (some c) = then_do (unlink_before h array c) (λ h1.
      then_do (change_at h1 c.next (λ n. record n { prev = c.prev })) (λ h2.
        then_do (change h2 a (λ n. record n { next = none; prev = none; parent = none }))
          (λ h3. delete_from fuel h3 (some a))))

  abbrev pub delete_found : (fuel : ℕ) → Heap D → (array : ℕ) → Option ℕ → Option (Heap D)
  delete_found fuel h array none = some h
  delete_found fuel h array (some a) = unlink_item fuel h array a (h.node a)

  abbrev pub delete_child :
      (fuel : ℕ) → Heap D → (array index : ℕ) → Option (Node D) → Option (Heap D)
  delete_child fuel h array index none = none
  delete_child fuel h array index (some n) = delete_found fuel h array (item_from index h n.child)

  unfoldable pub heap_delete_item : (fuel : ℕ) → Heap D → (array index : ℕ) → Option (Heap D)
  heap_delete_item fuel h array index = delete_child fuel h array index (h.node array)
