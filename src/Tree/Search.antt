-- ===== src/Tree/Search.antt =====
-- The searches of src/gpr_tree.c find the first node, children first.
use gpr.Base.{
  ℕ, zero, suc, ◌<◌, ◌≡◌, ◌≢◌, ◌⊎◌, refl, sym, ap, ◌∙◌, List, [], ◌∷◌, ◌++◌, some, Bool, true,
  false, ◌==◌, arith, Bool-cases, inl, inr, eq→==, ==→eq, ne→not-==, length,
}
use gpr.Machine.{Ptr, null, World, done, Returns}
use gpr.Tree.{
  Nodes, SearchByNode, label, value, is_unknown, same_text, limit, search_by_node_component,
  gpr_tree_search_node_by_label, gpr_tree_search_node_by_value,
}
use gpr.Tree.Shape.{Tree, root, size, Holds}
use gpr.Tree.Read.{texts, first_at, search_below-eq}

-- No entry has this text.
abbrev pub NoneWith : List ℕ → List (Ptr × List ℕ) → Type 0
NoneWith match [] = Unit
NoneWith match ((p, t) ∷ es) = (t ≢ match) × NoneWith match es

-- The first entry with the text, or `NULL` where there is none.
abbrev pub First : List ℕ → List (Ptr × List ℕ) → Ptr → Type 0
First match es r =
    ((ys : List (Ptr × List ℕ)) × (p : Ptr) × (zs : List (Ptr × List ℕ)) × (es
        ≡ ys ++ ((p, match) ∷ zs))
      × NoneWith match ys
      × (r ≡ p))
    ⊎ (NoneWith match es × (r ≡ null))

-- The texts are shorter than what is compared.
abbrev pub Short : ℕ → List (Ptr × List ℕ) → Type 0
Short n [] = Unit
Short n ((p, t) ∷ es) = (length t < n) × Short n es

same_text_refl : (n : ℕ) (t : List ℕ) → same_text n t t ≡ true
same_text_refl zero t = refl
same_text_refl (suc n) [] = refl
same_text_refl (suc n) (x ∷ xs) = rw (eq→== x x refl) (same_text_refl n xs)

same_text-eq : (n : ℕ) (a b : List ℕ) → length a < n → same_text n a b ≡ true → a ≡ b
same_text-eq zero a b short e = absurd (omega arith)
same_text-eq (suc n) [] [] short e = refl
same_text-eq (suc n) [] (y ∷ ys) short e = cc
same_text-eq (suc n) (x ∷ xs) [] short e = cc
same_text-eq (suc n) (x ∷ xs) (y ∷ ys) short e = elim (Bool-cases (x == y)) [
  | inl i ↦ cc (==→eq x y i, same_text-eq n xs ys (omega arith) (ground (arith, i)))
  | inr i ↦ absurd (ground (arith, i))
]

not_same_text : (n : ℕ) (a b : List ℕ) → same_text n a b ≡ false → a ≢ b
not_same_text n a b e same = cc (same_text_refl n b)

first_at-First :
    (n : ℕ) (match : List ℕ) (es : List (Ptr × List ℕ))
    → Short n es
    → First match es (first_at n match es)
first_at-First n match [] short = inr (tt, refl)
first_at-First n match ((p, t) ∷ es) short = elim (Bool-cases (same_text n t match)) [
  | inl hit ↦
      rw hit (inl ([], p, es, ap (λ u. (p, u) ∷ es) (same_text-eq n t match short.0 hit), tt, refl))
  | inr miss ↦ rw miss (elim (first_at-First n match es short.1) [
    | inl (ys, q, zs, e, none_before, r) ↦ inl (
      (p, t) ∷ ys,
      q,
      zs,
      ap (λ us. (p, t) ∷ us) e,
      (not_same_text n t match miss, none_before),
      r,
    )
    | inr (rest, r) ↦ inr ((not_same_text n t match miss, rest), r)
  ])
]

module _ (debug : Bool) (match : List ℕ) (w : World Nodes) (t : Tree) (fuel : ℕ)
    (some_here : root t ≢ null) (held : Holds w.heap t) (enough : size t < fuel) where
  searched :
      (pattern : SearchByNode)
      → is_unknown pattern ≡ false
      → search_by_node_component debug fuel pattern (root t) (some match) w
        ≡ done (first_at (limit pattern) match (texts pattern t)) w
  searched pattern known =
      sym (rw (ne→not-== (root t) null some_here) refl)
      ∙ search_below-eq debug pattern match known w.msg w.calls w.heap t fuel held enough

  -- gpr_tree_search_node_by_label and gpr_tree_search_node_by_value return the first node, in the order
  -- that visits a node, then its children, then its siblings, whose label or value is the text, or
  -- `NULL` if there is none, and change nothing. The heap holds the tree, which has a node, the labels
  -- and values fit in their buffers, and the fuel is more than the number of nodes.
  pub tree_search-First :
      Short (limit label) (texts label t)
      → Short (limit value) (texts value t)
      → Returns
          (λ r w'. First match (texts label t) r × (w' ≡ w))
          (gpr_tree_search_node_by_label debug fuel (root t) (some match) w)
        × Returns
            (λ r w'. First match (texts value t) r × (w' ≡ w))
            (gpr_tree_search_node_by_value debug fuel (root t) (some match) w)
  unfolding gpr_tree_search_node_by_label gpr_tree_search_node_by_value
  tree_search-First short_labels short_values = (
    rw (searched label refl)
        (first_at-First (limit label) match (texts label t) short_labels, refl),
    rw (searched value refl)
        (first_at-First (limit value) match (texts value t) short_values, refl),
  )
