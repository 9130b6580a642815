-- ===== src/Tree/Tests.antt =====
-- The theorems on trees at concrete inputs, and a child that is added twice.
use gpr.Base.{◌≡◌, refl, [], ◌∷◌, none, some, true, false, arith, ◌==◌, if◌then◌else◌}
use gpr.Machine.{null, World, done, Returns}
use gpr.Err.{ok, loop_detected, codes, gpr_err_raise}
use gpr.Tree.{
  Nodes, tnode, label, value, is_contained, gpr_tree_free, gpr_tree_search_node_by_label,
  gpr_tree_search_node_by_value,
}
use gpr.Tree.Ops.{
  gpr_tree_add_child, gpr_tree_add_sibling, gpr_tree_new_child, gpr_tree_new_sibling, last_sibling,
}
use gpr.Tree.Shape.{Tree, leaf, node, Holds, Distinct, erase}
use gpr.Tree.Read.{texts}
use gpr.Tree.Search.{First, tree_search-First}
use gpr.Tree.Free.{tree_free-erase}
use gpr.Tree.Attach.{at_node, with_child, with_sibling}
use gpr.Tree.Add.{Added, tree_add-Added, tree_add_loop}
use gpr.Tree.New.{Linked, labelled, tree_new-Linked}

-- A root with two children; a node of its own.
abbrev family : Tree
family = node 1 (97 ∷ []) [] (node 2 (98 ∷ []) (120 ∷ []) leaf (node 3 (99 ∷ []) [] leaf leaf)) leaf

abbrev guest : Tree
guest = node 4 (100 ∷ []) [] leaf leaf

abbrev nodes : Nodes
nodes p =
    if p == 1
    then some (tnode (97 ∷ []) [] 2 null)
    else if p == 2
    then some (tnode (98 ∷ []) (120 ∷ []) null 3)
    else if p == 3
    then some (tnode (99 ∷ []) [] null null)
    else if p == 4
    then some (tnode (100 ∷ []) [] null null)
    else none

abbrev here : World Nodes
here = record { msg = []; calls = []; heap = nodes }

family-Holds : Holds nodes family
family-Holds = (omega arith, refl, (omega arith, refl, tt, (omega arith, refl, tt, tt)), tt)

guest-Holds : Holds nodes guest
guest-Holds = (omega arith, refl, tt, tt)

family-Distinct : Distinct family
family-Distinct = (
  refl,
  refl,
  (λ r i. refl),
  (refl, refl, (λ r i. cc), tt, (refl, refl, (λ r i. refl), tt, tt)),
  tt,
)

guest-Distinct : Distinct guest
guest-Distinct = (refl, refl, (λ r i. refl), tt, tt)

tree_search-First_example :
    Returns
      (λ r w. First (99 ∷ []) (texts label family) r × (w ≡ here))
      (gpr_tree_search_node_by_label true 4 1 (some (99 ∷ [])) here)
    × Returns
        (λ r w. First (99 ∷ []) (texts value family) r × (w ≡ here))
        (gpr_tree_search_node_by_value true 4 1 (some (99 ∷ [])) here)
tree_search-First_example =
    tree_search-First true (99 ∷ []) here family 4 (omega arith) family-Holds (omega arith)
      (omega arith, (omega arith, (omega arith, tt)))
      (omega arith, (omega arith, (omega arith, tt)))

tree_free-erase_example :
    gpr_tree_free false 4 1 here ≡ done tt (record here { heap = erase family nodes })
tree_free-erase_example =
    tree_free-erase false 4 here family (omega arith) family-Holds family-Distinct (omega arith)

abbrev grown_child : Tree
grown_child =
    node 1 (97 ∷ []) [] (node 2 (98 ∷ []) (120 ∷ []) guest (node 3 (99 ∷ []) [] leaf leaf)) leaf

abbrev grown_sibling : Tree
grown_sibling =
    node 1 (97 ∷ []) [] (node 2 (98 ∷ []) (120 ∷ []) leaf (node 3 (99 ∷ []) [] leaf guest)) leaf

tree_add-Added_example :
    Added here family grown_child (gpr_tree_add_child true 5 2 4 here)
    × Added here family grown_sibling (gpr_tree_add_sibling true 5 2 4 here)
tree_add-Added_example =
    tree_add-Added true 5 2 here family guest family-Holds guest-Holds family-Distinct
      guest-Distinct (λ r i. ground arith) (omega arith) refl (omega arith) (omega arith)

tree_add_loop_example :
    (gpr_tree_add_child true 4 3 1 here
      ≡ done loop_detected (record here { msg = codes "Child node already contains origin node" }))
    × (gpr_tree_add_sibling true 4 3 1 here
        ≡ done loop_detected
            (record here { msg = codes "Sibling node already contains origin node" }))
tree_add_loop_example =
    tree_add_loop true 4 3 here family family-Holds (omega arith) refl (omega arith)

tree_new-Linked_example :
    Linked 9 here family
      (at_node 1 (with_child (labelled 9 (101 ∷ []))) family)
      (gpr_tree_new_child false 5 9 1 (some (101 ∷ [])) here)
    × Linked 9 here family
        (at_node 1 (with_sibling (labelled 9 (101 ∷ []))) family)
        (gpr_tree_new_sibling false 5 9 1 (some (101 ∷ [])) here)
tree_new-Linked_example =
    tree_new-Linked false 9 (101 ∷ []) here (omega arith) (omega arith) 5 1 family family-Holds
      family-Distinct (omega arith) refl refl (omega arith)

-- Adding the last child again makes it its own sibling, and a walk along the siblings has no end.
add_twice :
    (h : Nodes) × (gpr_tree_add_child true 5 1 3 here ≡ done ok (record here { heap = h }))
    × (h 3 ≡ some (tnode (99 ∷ []) [] null 3))
unfolding gpr_tree_add_child is_contained last_sibling gpr_err_raise
add_twice = (_, refl, refl)
