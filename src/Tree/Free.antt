-- ===== src/Tree/Free.antt =====
-- gpr_tree_free frees each node of a tree once, and nothing else.
use mathlib.Core.Path.{fun_ext}
use gpr.Base.{
  ℕ, zero, suc, ◌<◌, ◌≡◌, ◌≢◌, refl, sym, ap, ◌∙◌, List, none, some, Bool, true, false, ◌||◌, ◌==◌,
  if◌then◌else◌, arith, Bool-cases, inl, inr, eq→==, ne→not-==, ==→eq, not-==→ne, and-false,
}
use gpr.Machine.{Ptr, null, World, done, and_then, pure, Run}
use gpr.Tree.{Tnode, Nodes, tnode, write, gpr_tree_free, gpr_tree_free_node}
use gpr.Tree.Shape.{
  Tree, leaf, node, root, size, has, Holds, Distinct, erase, Holds-erase, tree_world,
}

erase-node :
    (h : Nodes) (p : Ptr) (l v : List ℕ) (c s : Tree) (r : Ptr)
    → write (erase c (erase s h)) p none r ≡ erase (node p l v c s) h r
erase-node h p l v c s r = elim (Bool-cases (p == r)) [
  | inl e ↦ rw (e, eq→== r p (sym (==→eq p r e))) refl
  | inr e ↦ rw (e, ne→not-== r p (λ z. not-==→ne p r e (sym z))) (merged (has r c) (has r s))
]
  where
    merged :
        (a b : Bool)
        → (if a then none else if b then none else h r) ≡ (if a || b then none else h r)
    merged true b = refl
    merged false b = refl

module _ (debug : Bool) (msg : List ℕ) (calls : List Ptr) where
  abbrev free_below : ℕ → Ptr → Nodes → Run Nodes (Unit {0})
  free_below fuel p h =
      (if p == null then pure tt else gpr_tree_free debug fuel p) (tree_world msg calls h)

  free_node-eq :
      (h : Nodes) (p : Ptr) (n : Tnode)
      → p ≢ null
      → h p ≡ some n
      → gpr_tree_free_node debug p (tree_world msg calls h)
        ≡ done tt (tree_world msg calls (write h p none))
  unfolding gpr_tree_free_node
  free_node-eq h p n valid here =
      rw (ne→not-== p null valid, and-false debug) (rw (here, and_then) refl)

  free_below-eq :
      (h : Nodes) (t : Tree) (fuel : ℕ)
      → Holds h t
      → Distinct t
      → size t < fuel
      → free_below fuel (root t) h ≡ done tt (tree_world msg calls (erase t h))
  unfolding gpr_tree_free
  free_below-eq h leaf fuel v d enough = refl
  free_below-eq h (node p l w c s) zero v d enough = absurd (omega arith)
  free_below-eq h (node p l w c s) (suc fuel) v d enough =
      rw (ne→not-== p null v.0, and-false debug)
        (rw (v.1, and_then)
          (rw (free_below-eq h s fuel v.3 d.4 (omega arith), and_then)
            (rw (still_s, and_then)
              (rw
                (
                  free_below-eq (erase s h) c fuel (Holds-erase h s c v.2 d.2) d.3 (omega arith),
                  and_then,
                )
                (free_node-eq (erase c (erase s h)) p _ v.0 still_c
                  ∙ ap (λ g. done tt (tree_world msg calls g)) (fun_ext gone))))))
    where
      still_s : erase s h p ≡ some (tnode l w (root c) (root s))
      still_s = rw d.1 v.1

      still_c : erase c (erase s h) p ≡ some (tnode l w (root c) (root s))
      still_c = rw (d.0, d.1) v.1

      gone : (r : Ptr) → write (erase c (erase s h)) p none r ≡ erase (node p l w c s) h r
      gone = erase-node h p l w c s

-- gpr_tree_free frees the nodes of the tree, each once, and leaves the rest of the memory as it was. The
-- heap holds the tree, which has a node and no node twice, and the fuel is more than the number of
-- nodes.
pub tree_free-erase :
    (debug : Bool) (fuel : ℕ) (w : World Nodes) (t : Tree)
    → root t ≢ null
    → Holds w.heap t
    → Distinct t
    → size t < fuel
    → gpr_tree_free debug fuel (root t) w ≡ done tt (record w { heap = erase t w.heap })
tree_free-erase debug fuel w t some_here v d enough =
    sym (rw (ne→not-== (root t) null some_here) refl)
    ∙ free_below-eq debug w.msg w.calls w.heap t fuel v d enough
