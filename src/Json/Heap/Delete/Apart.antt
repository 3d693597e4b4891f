-- ===== src/Json/Heap/Delete/Apart.antt =====
-- tinyjson.h: addresses that differ, and lists of them.
use sa.Prelude.{
  ℕ, ◌≡◌, refl, subst, false, some, List, [], ◌∷◌, ◌++◌, ◌==◌, length, get_elem?, All, All-append,
}
use sa.Json.Heap.Chain.{Differ, Distinct, ==_sym, last_of, last_of-Differ}
use sa.Json.Heap.Delete.Frees.{All-split}

pub no_node : (v : ℕ) (ws : List ℕ) → [] ≡ v ∷ ws → ⊥
no_node v ws e = cc

pub same_head : (v w : ℕ) (vs ws : List ℕ) → v ∷ vs ≡ w ∷ ws → v ≡ w
same_head v w vs ws e = cc

pub Distinct-drop :
    (us : List ℕ) (a : ℕ) (vs : List ℕ) → Distinct (us ++ a ∷ vs) → Distinct (us ++ vs)
Distinct-drop [] a vs d = d.1
Distinct-drop (u ∷ us) a vs d =
    let apart = All-split (λ x. (x == u) ≡ false) us (a ∷ vs) d.0 in
    (All-append (λ x. (x == u) ≡ false) us vs apart.0 apart.1.1, Distinct-drop us a vs d.1)

pub Differ-last :
    (b : ℕ) (bs ys : List ℕ) → All (λ y. Differ y (b ∷ bs)) ys → Differ (last_of b bs) ys
Differ-last b bs [] h = tt
Differ-last b bs (y ∷ ys) h =
    (==_sym (last_of b bs) y (last_of-Differ y b bs h.0), Differ-last b bs ys h.1)

pub head_of : (Q : ℕ → Type 0) (vs : List ℕ) → All Q vs → (v : ℕ) (ws : List ℕ) → vs ≡ v ∷ ws → Q v
head_of Q [] h v ws e = absurd (no_node v ws e)
head_of Q (w ∷ us) h v ws e = subst Q (same_head w v us ws e) h.0

turned : (z : ℕ) (vs : List ℕ) → Differ z vs → All (λ x. (z == x) ≡ false) vs
turned z [] d = tt
turned z (v ∷ vs) d = (==_sym v z d.0, turned z vs d.1)

pub apart_head :
    (x : ℕ) (vs : List ℕ) → Differ x vs → (v : ℕ) (ws : List ℕ) → vs ≡ v ∷ ws → (x == v) ≡ false
apart_head x vs d v ws e = head_of (λ y. (x == y) ≡ false) vs (turned x vs d) v ws e

pub get_elem?-at :
    (us : List ℕ) (a : ℕ) (vs : List ℕ) → get_elem? (us ++ a ∷ vs) (length us) ≡ some a
get_elem?-at [] a vs = refl
get_elem?-at (u ∷ us) a vs = get_elem?-at us a vs
