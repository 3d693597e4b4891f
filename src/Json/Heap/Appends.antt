-- ===== src/Json/Heap/Appends.antt =====
-- tinyjson.h: `cj_append_child` on memory, against the list of the children.
use sa.Prelude.{
  ℕ, ◌≡◌, refl, ◌∙◌, false, Option, none, some, List, [], ◌∷◌, ◌++◌, ◌==◌, All, All-append, ap, ◌<◌,
  sym, arith, length,
}
use sa.Json.Heap.{write, cj_append_child, Node, Heap, then_do, change, link_at, link, link_behind}
use sa.Json.Heap.Chain.{
  Chain, Differ, Distinct, IsList, write_same, write_other, ==_sym, last_of, last_of-Differ,
  change_lem, Chain-frame, last_from_lem,
}

Distinct-append :
    (xs : List ℕ) (item : ℕ) → Distinct xs → Differ item xs → Distinct (xs ++ item ∷ [])
Distinct-append [] item d apart = (tt, tt)
Distinct-append (a ∷ xs) item d apart = (
  All-append (λ x. (x == a) ≡ false) xs (item ∷ []) d.0 (==_sym a item apart.0, tt),
  Distinct-append xs item d.1 apart.1,
)

module _ {D : Type 0} where
  -- What linking an item behind the last node does to the memory.
  record Links (h h' : Heap D) (last item : ℕ) : Type 0 where
    made : Node D
    at_item : h'.node item ≡ some made
    no_next : made.next ≡ none
    back : made.prev ≡ some last
    forth :
        (n : Node D) → h.node last ≡ some n → h'.node last ≡ some (record n { next = some item })
    others : (x : ℕ) → (x == last) ≡ false → (x == item) ≡ false → h'.node x ≡ h.node x

  Chain-extend :
      (h h' : Heap D) (prev from : Option ℕ) (a : ℕ) (xs : List ℕ) (item : ℕ)
      → Chain h prev from (a ∷ xs)
      → Distinct (a ∷ xs)
      → Differ item (a ∷ xs)
      → Links h h' (last_of a xs) item
      → Chain h' prev from (a ∷ xs ++ item ∷ [])
  Chain-extend h h' prev from a [] item c d apart links = (
    c.0,
    (
      record (c.1.0) { next = some item },
      links.forth c.1.0 c.1.1,
      c.1.2,
      (refl, (links.made, links.at_item, links.back, links.no_next)),
    ),
  )
  Chain-extend h h' prev from a (b ∷ xs) item c d apart links = (
    c.0,
    (
      c.1.0,
      links.others a (==_sym (last_of b xs) a (last_of-Differ a b xs d.0)) apart.0 ∙ c.1.1,
      c.1.2,
      Chain-extend h h' (some a) (Node.next (c.1.0)) b xs item c.1.3 d.1 apart.1 links,
    ),
  )

  Differ-frame :
      (h : Heap D) (item : ℕ) (m : Node D) (xs : List ℕ)
      → Differ item xs
      → All (λ x. (write h item m).node x ≡ h.node x) xs
  Differ-frame h item m [] apart = tt
  Differ-frame h item m (x ∷ xs) apart =
      (write_other h item m x apart.0, Differ-frame h item m xs apart.1)

  -- The item before it is linked.
  abbrev detached : ℕ → Node D → Node D
  detached parent m = record m { parent = some parent; next = none }

  -- The first child.
  append_first :
      (fuel : ℕ) (h : Heap D) (parent item : ℕ) (p m : Node D)
      → h.node parent ≡ some p
      → p.child ≡ none
      → h.node item ≡ some m
      → (parent == item) ≡ false
      → (h' : Heap D) × (cj_append_child fuel h parent item ≡ some h')
        × IsList h' parent (item ∷ [])
  unfolding cj_append_child
  append_first fuel h parent item p m at_parent empty at_item apart =
      let m1 = detached parent m in
      let m2 = record m1 { prev = none } in
      let h1 = write h item m1 in
      let h2 = write h1 item m2 in
      let p3 = record p { child = some item } in
      let parent1 = write_other h item m1 parent apart ∙ at_parent in
      let parent2 = write_other h1 item m2 parent apart ∙ parent1 in
      (
        write h2 parent p3,
        ap (λ o. then_do o (λ h'. link fuel h' parent item (h'.node parent)))
              (change_lem h item m _ at_item)
            ∙ (ap (link fuel h1 parent item) parent1
                ∙ (ap (link_at fuel h1 parent item) empty
                    ∙ (ap
                          (λ o.
                            then_do o (λ linked.
                              change linked parent (λ n. record n { child = some item })))
                          (change_lem h1 item m1 _ (write_same h item m1))
                        ∙ change_lem h2 parent p _ parent2))),
        (
          p3,
          write_same h2 parent p3,
          (
            refl,
            (
              m2,
              write_other h2 parent p3 item (==_sym parent item apart) ∙ write_same h1 item m2,
              refl,
              refl,
            ),
          ),
          ((==_sym parent item apart, tt), (tt, tt)),
        ),
      )

  last_node :
      (h : Heap D) (prev from : Option ℕ) (a : ℕ) (xs : List ℕ)
      → Chain h prev from (a ∷ xs)
      → (n : Node D) × (h.node (last_of a xs) ≡ some n)
  last_node h prev from a [] c = (c.1.0, c.1.1)
  last_node h prev from a (b ∷ xs) c = last_node h (some a) (Node.next (c.1.0)) b xs c.1.3

  same_node : (m n : Node D) → some m ≡ some n → m ≡ n
  same_node m n e = cc

  forth :
      (h h' : Heap D) (last item : ℕ) (m n : Node D)
      → h.node last ≡ some m
      → h.node last ≡ some n
      → h'.node last ≡ some (record m { next = some item })
      → h'.node last ≡ some (record n { next = some item })
  forth h h' last item m n at_m at_n e =
      e
      ∙ ap (λ (k : Node D). some (record k { next = some item })) (same_node m n (sym at_m ∙ at_n))

  -- A child behind others.
  append_later :
      (fuel : ℕ) (h : Heap D) (parent item a : ℕ) (xs : List ℕ) (p m : Node D)
      → h.node parent ≡ some p
      → Chain h none p.child (a ∷ xs)
      → Distinct (parent ∷ a ∷ xs)
      → h.node item ≡ some m
      → Differ item (parent ∷ a ∷ xs)
      → length xs < fuel
      → (h' : Heap D) × (cj_append_child fuel h parent item ≡ some h')
        × IsList h' parent (a ∷ xs ++ item ∷ [])
  unfolding cj_append_child
  append_later fuel h parent item a xs p m at_parent chain distinct at_item apart enough =
      let m1 = detached parent m in
      let h1 = write h item m1 in
      let last = last_of a xs in
      let chain1 =
        Chain-frame h h1 none p.child (a ∷ xs) (Differ-frame h item m1 (a ∷ xs) apart.1) chain in
      let at_last = last_node h1 none p.child a xs chain1 in
      let l2 = record (at_last.0) { next = some item } in
      let h2 = write h1 last l2 in
      let m3 = record m1 { prev = some last } in
      let h3 = write h2 item m3 in
      let last_item = last_of-Differ item a xs apart.1 in
      let last_parent = last_of-Differ parent a xs distinct.0 in
      let parent1 = write_other h item m1 parent apart.0 ∙ at_parent in
      let item2 = write_other h1 last l2 item (==_sym last item last_item) ∙ write_same h item m1 in
      let links : Links h1 h3 last item = record {
        made = m3;
        at_item = write_same h2 item m3;
        no_next = refl;
        back = refl;
        forth = λ n same.
            forth h1 h3 last item at_last.0 n at_last.1 same
              (write_other h2 item m3 last last_item ∙ write_same h1 last l2);
        others =
            λ x x_last x_item. write_other h2 item m3 x x_item ∙ write_other h1 last l2 x x_last;
      } in
      (
        h3,
        ap (λ o. then_do o (λ h'. link fuel h' parent item (h'.node parent)))
              (change_lem h item m _ at_item)
            ∙ (ap (link fuel h1 parent item) parent1
                ∙ (ap (link_at fuel h1 parent item) chain.0
                    ∙ (ap (link_behind h1 item)
                          (last_from_lem fuel h1 none p.child a xs enough chain1)
                        ∙ (ap
                              (λ o.
                                then_do o (λ linked.
                                  change linked item (λ n. record n { prev = some last })))
                              (change_lem h1 last at_last.0 _ at_last.1)
                            ∙ change_lem h2 item m1 _ item2)))),
        (
          p,
          links.others parent (==_sym last parent last_parent) apart.0 ∙ parent1,
          Chain-extend h1 h3 none p.child a xs item chain1 distinct.1 apart.1 links,
          Distinct-append (parent ∷ a ∷ xs) item distinct apart,
        ),
      )

  -- Where a node has the children `xs`, `cj_append_child` of another node that is none of them ends,
  -- reads and writes only allocated memory, and leaves it with the children `xs ++ item ∷ []`, linked
  -- both ways; as many rounds as it has children, and one, are enough.
  pub cj_append_child-IsList :
      (fuel : ℕ) (h : Heap D) (parent item : ℕ) (xs : List ℕ) (m : Node D)
      → IsList h parent xs
      → h.node item ≡ some m
      → Differ item (parent ∷ xs)
      → length xs < fuel
      → (h' : Heap D) × (cj_append_child fuel h parent item ≡ some h')
        × IsList h' parent (xs ++ item ∷ [])
  cj_append_child-IsList fuel h parent item [] m (p, at_parent, chain, distinct) at_item apart
        enough =
      append_first fuel h parent item p m at_parent chain at_item apart.0
  cj_append_child-IsList fuel h parent item (a ∷ xs) m (p, at_parent, chain, distinct) at_item apart
        enough =
      append_later fuel h parent item a xs p m at_parent chain distinct at_item apart
        (omega (arith, enough))
