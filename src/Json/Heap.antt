-- ===== src/Json/Heap.antt =====
-- tinyjson.h: the nodes in memory (`cJSON`), with the links of the child list. The other modules take
-- a node as a value with the list of its children; here it is a record at an address. A read or
-- write of memory that is not allocated gives none, as does a walk that is given too little fuel.
pub mod Chain
pub mod Appends
pub mod Delete
use sa.Prelude.{ℕ, zero, suc, Bool, true, false, Option, none, some, [], ◌==◌, if◌then◌else◌}
use sa.Prelude.Bytes.{Bytes}

-- The types of nodes.
pub data NodeType : Type 0 where
  false_node : NodeType
  true_node : NodeType
  null_node : NodeType
  number_node : NodeType
  string_node : NodeType
  array_node : NodeType
  object_node : NodeType

-- `valueint` is computed from `valuedouble` where it is set, and stands nowhere else.
pub record Node (D : Type 0) : Type 0 where
  pub next : Option ℕ
  pub prev : Option ℕ
  pub child : Option ℕ
  pub parent : Option ℕ
  pub type : NodeType
  pub valuestring : Option Bytes
  pub valuedouble : Option D
  pub string : Option Bytes
  pub is_ref : Bool

-- The nodes at the addresses, and the next address that is free.
pub record Heap (D : Type 0) : Type 0 where
  pub node : ℕ → Option (Node D)
  pub free : ℕ

abbrev pub text_or_empty : Option Bytes → Bytes
text_or_empty none = []
text_or_empty (some s) = s

-- What a walk to the last node does with `next`.
abbrev pub last_next : (walk : ℕ → Option ℕ) → ℕ → Option ℕ → Option ℕ
last_next walk a none = some a
last_next walk a (some b) = walk b

abbrev pub one_more : Option ℕ → Option ℕ
one_more none = none
one_more (some k) = some (suc k)

module _ {D : Type 0} where
  abbrev pub put_node : (ℕ → Option (Node D)) → ℕ → Option (Node D) → ℕ → Option (Node D)
  put_node node a n b = if b == a then n else node b

  abbrev pub write : Heap D → ℕ → Node D → Heap D
  write h a n = record h { node = put_node h.node a (some n) }

  -- `calloc(1, sizeof *j)` with the type.
  abbrev pub new_node : NodeType → Node D
  new_node type = record {
    next = none;
    prev = none;
    child = none;
    parent = none;
    type = type;
    valuestring = none;
    valuedouble = none;
    string = none;
    is_ref = false;
  }

  abbrev pub allocate : Heap D → Node D → Heap D × ℕ
  allocate h n = (record { node = put_node h.node h.free (some n); free = suc h.free }, h.free)

  unfoldable pub cj_new : NodeType → Heap D → Heap D × ℕ
  cj_new type h = allocate h (new_node type)

  unfoldable pub create_string : Option Bytes → Heap D → Heap D × ℕ
  create_string s h =
      allocate h (record (new_node string_node) { valuestring = some (text_or_empty s) })

  unfoldable pub create_number : D → Heap D → Heap D × ℕ
  create_number n h = allocate h (record (new_node number_node) { valuedouble = some n })

  unfoldable pub create_bool : Bool → Heap D → Heap D × ℕ
  create_bool b h = cj_new (if b then true_node else false_node) h

  abbrev pub last_step : (walk : ℕ → Option ℕ) → ℕ → Option (Node D) → Option ℕ
  last_step walk a none = none
  last_step walk a (some n) = last_next walk a n.next

  -- `while (last->next) last = last->next`.
  unfoldable pub last_from : (fuel : ℕ) → Heap D → ℕ → Option ℕ
  last_from zero h a = none
  last_from (suc fuel) h a = last_step (last_from fuel h) a (h.node a)

  abbrev pub then_do : Option (Heap D) → (Heap D → Option (Heap D)) → Option (Heap D)
  then_do none f = none
  then_do (some h) f = f h

  abbrev pub changed : Heap D → ℕ → (Node D → Node D) → Option (Node D) → Option (Heap D)
  changed h a f none = none
  changed h a f (some n) = some (write h a (f n))

  -- A change of a node.
  abbrev pub change : Heap D → ℕ → (Node D → Node D) → Option (Heap D)
  change h a f = changed h a f (h.node a)

  -- The item behind the last child.
  abbrev pub link_behind : Heap D → (item : ℕ) → Option ℕ → Option (Heap D)
  link_behind h item none = none
  link_behind h item (some last) =
      then_do (change h last (λ n. record n { next = some item }))
        (λ linked. change linked item (λ n. record n { prev = some last }))

  abbrev pub link_first : Heap D → (parent item : ℕ) → Option (Heap D)
  link_first h parent item =
      then_do (change h item (λ n. record n { prev = none }))
        (λ linked. change linked parent (λ n. record n { child = some item }))

  abbrev pub link_at : (fuel : ℕ) → Heap D → (parent item : ℕ) → Option ℕ → Option (Heap D)
  link_at fuel h parent item none = link_first h parent item
  link_at fuel h parent item (some first) = link_behind h item (last_from fuel h first)

  abbrev pub link : (fuel : ℕ) → Heap D → (parent item : ℕ) → Option (Node D) → Option (Heap D)
  link fuel h parent item none = none
  link fuel h parent item (some p) = link_at fuel h parent item p.child

  unfoldable pub cj_append_child : (fuel : ℕ) → Heap D → (parent item : ℕ) → Option (Heap D)
  cj_append_child fuel h parent item =
      then_do (change h item (λ n. record n { parent = some parent; next = none }))
        (λ h'. link fuel h' parent item (h'.node parent))

  unfoldable pub heap_add_to_object :
      (fuel : ℕ) → Heap D → (object : ℕ) → Bytes → (item : ℕ) → Option (Heap D)
  heap_add_to_object fuel h object key item =
      then_do (change h item (λ n. record n { string = some key }))
        (λ h'. cj_append_child fuel h' object item)

  abbrev pub reference_to : Node D → Bytes → Node D
  reference_to n key = record (new_node n.type) {
    is_ref = true;
    child = n.child;
    valuestring = n.valuestring;
    valuedouble = n.valuedouble;
    string = some key;
  }

  abbrev pub referred :
      (fuel : ℕ) → Heap D → (object : ℕ) → Bytes → Option (Node D) → Option (Heap D)
  referred fuel h object key none = none
  referred fuel h object key (some n) =
      let made = allocate h (reference_to n key) in cj_append_child fuel made.0 object made.1

  -- `cJSON_AddItemReferenceToObject`.
  unfoldable pub heap_add_reference :
      (fuel : ℕ) → Heap D → (object : ℕ) → Bytes → (item : ℕ) → Option (Heap D)
  heap_add_reference fuel h object key item = referred fuel h object key (h.node item)

  abbrev pub item_step : (walk : Option ℕ → Option ℕ) → Option (Node D) → Option ℕ
  item_step walk none = none
  item_step walk (some n) = walk n.next

  -- The walk to a child: the address that `cJSON_GetArrayItem` returns.
  unfoldable pub item_from : (index : ℕ) → Heap D → Option ℕ → Option ℕ
  item_from zero h c = c
  item_from (suc index) h none = none
  item_from (suc index) h (some a) = item_step (item_from index h) (h.node a)

  abbrev pub count_step : (walk : Option ℕ → Option ℕ) → Option (Node D) → Option ℕ
  count_step walk none = none
  count_step walk (some n) = one_more (walk n.next)

  -- The count of `cJSON_GetArraySize`.
  unfoldable pub count_from : (fuel : ℕ) → Heap D → Option ℕ → Option ℕ
  count_from fuel h none = some 0
  count_from zero h (some a) = none
  count_from (suc fuel) h (some a) = count_step (count_from fuel h) (h.node a)
