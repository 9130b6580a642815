-- ===== src/Tree/Read.antt =====
-- is_contained and the searches on a heap that holds a tree.
use gpr.Base.{
  [], ◌∷◌, ◌++◌, ℕ, zero, suc, ◌<◌, ◌≡◌, ◌≢◌, refl, List, some, Bool, false, ◌==◌, if◌then◌else◌,
  arith, Bool-cases, inl, inr, ne→not-==, and-false,
}
use gpr.Machine.{Ptr, null, done, and_then, pure, Run}
use gpr.Tree.{
  Nodes, is_contained, SearchByNode, is_unknown, same_text, limit, component,
  search_by_node_component,
}
use gpr.Tree.Shape.{Tree, leaf, node, root, size, has, Holds, tree_world}

module _ (debug : Bool) (q : Ptr) (msg : List ℕ) (calls : List Ptr) (h : Nodes) where
  abbrev pub contained_below : ℕ → Ptr → Run Nodes Bool
  contained_below fuel p =
      (if p == null then pure false else is_contained debug fuel p q) (tree_world msg calls h)

  pub contained_below-eq :
      (t : Tree) (fuel : ℕ)
      → q ≢ null
      → Holds h t
      → size t < fuel
      → contained_below fuel (root t) ≡ done (has q t) (tree_world msg calls h)
  unfolding is_contained
  contained_below-eq leaf fuel nq v enough = refl
  contained_below-eq (node p l w c s) zero nq v enough = absurd (omega arith)
  contained_below-eq (node p l w c s) (suc fuel) nq v enough =
      rw (ne→not-== p null v.0, ne→not-== q null nq, and-false debug)
        (elim (Bool-cases (p == q)) [
          | inl e ↦ rw e refl
          | inr e ↦ rw e (
              rw (v.1, and_then)
                (rw (contained_below-eq c fuel nq v.2 (omega arith), and_then)
                  (elim (Bool-cases (has q c)) [
                    | inl i ↦ rw i refl
                    | inr i ↦
                        rw i (rw (v.1, and_then) (contained_below-eq s fuel nq v.3 (omega arith)))
                  ])))
        ])

-- The nodes in the order of the search, children first, each with what the pattern compares.
abbrev pub texts : SearchByNode → Tree → List (Ptr × List ℕ)
texts pattern leaf = []
texts pattern (node p l v c s) = (p, component pattern l v) ∷ (texts pattern c ++ texts pattern s)

abbrev pub first_at : ℕ → List ℕ → List (Ptr × List ℕ) → Ptr
first_at n match [] = null
first_at n match ((p, t) ∷ es) =
    let rest = first_at n match es in if same_text n t match then p else rest

abbrev Valid : List (Ptr × List ℕ) → Type 0
Valid [] = Unit
Valid ((p, t) ∷ es) = (p ≢ null) × Valid es

Valid-append : (es ds : List (Ptr × List ℕ)) → Valid es → Valid ds → Valid (es ++ ds)
Valid-append [] ds v u = u
Valid-append ((p, t) ∷ es) ds v u = (v.0, Valid-append es ds v.1 u)

Holds-Valid : (pattern : SearchByNode) (h : Nodes) (t : Tree) → Holds h t → Valid (texts pattern t)
Holds-Valid pattern h leaf v = tt
Holds-Valid pattern h (node p l w c s) v = (
  v.0,
  Valid-append (texts pattern c) (texts pattern s) (Holds-Valid pattern h c v.2)
      (Holds-Valid pattern h s v.3),
)

first_at-append :
    (n : ℕ) (match : List ℕ) (es ds : List (Ptr × List ℕ))
    → Valid es
    → first_at n match (es ++ ds)
      ≡ (if first_at n match es == null then first_at n match ds else first_at n match es)
first_at-append n match [] ds v = refl
first_at-append n match ((p, t) ∷ es) ds v = ground (arith, first_at-append n match es ds v.1)

module _ (debug : Bool) (pattern : SearchByNode) (match : List ℕ)
    (known : is_unknown pattern ≡ false) (msg : List ℕ) (calls : List Ptr) (h : Nodes) where
  abbrev search_below : ℕ → Ptr → Run Nodes Ptr
  search_below fuel p =
      (if p == null then pure null else search_by_node_component debug fuel pattern p (some match))
        (tree_world msg calls h)

  pub search_below-eq :
      (t : Tree) (fuel : ℕ)
      → Holds h t
      → size t < fuel
      → search_below fuel (root t)
        ≡ done (first_at (limit pattern) match (texts pattern t)) (tree_world msg calls h)
  unfolding search_by_node_component
  search_below-eq leaf fuel v enough = refl
  search_below-eq (node p l w c s) zero v enough = absurd (omega arith)
  search_below-eq (node p l w c s) (suc fuel) v enough =
      rw (ne→not-== p null v.0, known, and-false debug)
        (rw (v.1, and_then)
          (elim (Bool-cases (same_text (limit pattern) (component pattern l w) match)) [
            | inl e ↦ rw e refl
            | inr e ↦
                rw
                  (
                    e,
                    first_at-append (limit pattern) match (texts pattern c) (texts pattern s)
                        (Holds-Valid pattern h c v.2),
                  )
                  (rw (search_below-eq c fuel v.2 (omega arith), and_then)
                    (elim (Bool-cases (first_at (limit pattern) match (texts pattern c) == null)) [
                      | inr i ↦ rw i refl
                      | inl i ↦ rw i (rw (v.1, and_then) (search_below-eq s fuel v.3 (omega arith)))
                    ]))
          ]))
