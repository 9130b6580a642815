-- ===== src/Tree/New.antt =====
-- gpr_tree_new_node, gpr_tree_new_child and gpr_tree_new_sibling: a new node with a label, linked.
use mathlib.Core.Path.{fun_ext}
use gpr.Base.{
  ℕ, ◌+◌, ◌<◌, ◌^◌, ◌≡◌, ◌≢◌, refl, ap, ◌∙◌, List, [], some, Bool, true, false, arith, eq→==,
  ne→not-==, and-false, length, take,
}
use gpr.Machine.{Ptr, null, World, done, and_then, Run}
use gpr.Utils.{text, gpr_utils_scnprintf, gpr_utils_vscnprintf}
use gpr.Utils.Laws.{vscnprintf_text}
use gpr.Tree.{Nodes, tnode, write, gpr_tree_node_label_len}
use gpr.Tree.Ops.{
  gpr_tree_new_node, gpr_tree_new_child, gpr_tree_new_sibling, gpr_tree_add_child,
  gpr_tree_add_sibling,
}
use gpr.Tree.Shape.{Tree, leaf, node, size, has, Holds, Distinct, Disjoint, Holds-write}
use gpr.Tree.Attach.{at_node, with_child, with_sibling}
use gpr.Tree.Add.{Added, tree_add-Added}

-- The label, cut to its buffer.
abbrev pub labelled : Ptr → List ℕ → Tree
labelled p label = node p (take gpr_tree_node_label_len label) [] leaf leaf

-- What a new node that was linked left: the tree `T'`, and the rest of the memory.
abbrev pub Linked : Ptr → World Nodes → Tree → Tree → Run Nodes Ptr → Type 0
Linked fresh w T T' r =
    (h : Nodes) × (r ≡ done fresh (record w { msg = []; heap = h }))
    × Holds h T'
    × Distinct T'
    × ((a : Ptr) → has a T ≡ false → a ≢ fresh → h a ≡ w.heap a)

module _ (debug : Bool) (fresh : Ptr) (label : List ℕ) (w : World Nodes)
    (fresh_valid : fresh ≢ null) (label_int : length label < 2 ^ 31) where
  abbrev new_heap : Nodes
  new_heap = write w.heap fresh (some (tnode (take gpr_tree_node_label_len label) [] null null))

  new_node-eq :
      gpr_tree_new_node debug fresh (some label) w ≡ done fresh (record w { heap = new_heap })
  unfolding gpr_tree_new_node gpr_utils_scnprintf
  new_node-eq =
      rw (ne→not-== fresh null fresh_valid, and-false debug)
        (rw (eq→== fresh fresh refl, and_then)
          (rw cut (ap (λ h. done fresh (record w { heap = h })) (fun_ext over))))
    where
      cut :
          (gpr_utils_vscnprintf [] (gpr_tree_node_label_len + 1) (text label)).1
          ≡ take gpr_tree_node_label_len label
      cut = (vscnprintf_text [] 129 label (omega arith) (omega arith) label_int).0

      over :
          (r : Ptr)
          → write
              (write w.heap fresh (some (tnode [] [] null null)))
              fresh
              (some (tnode (take gpr_tree_node_label_len label) [] null null))
              r
            ≡ new_heap r
      over r = ground arith

  module _ (fuel : ℕ) (o : Ptr) (T : Tree) (held : Holds w.heap T) (distinct : Distinct T)
      (origin_here : o ≢ null) (origin : has o T ≡ true) (unused : has fresh T ≡ false)
      (enough : size T + 1 < fuel) where
    both-Added :
        Added
          (record w { heap = new_heap })
          T
          (at_node o (with_child (labelled fresh label)) T)
          (gpr_tree_add_child debug fuel o fresh (record w { heap = new_heap }))
        × Added
            (record w { heap = new_heap })
            T
            (at_node o (with_sibling (labelled fresh label)) T)
            (gpr_tree_add_sibling debug fuel o fresh (record w { heap = new_heap }))
    both-Added =
        tree_add-Added debug fuel o (record w { heap = new_heap }) T (labelled fresh label)
          (Holds-write w.heap fresh _ T held unused)
          (fresh_valid, rw (eq→== fresh fresh refl) refl, tt, tt) distinct
          (refl, refl, (λ r i. cc), tt, tt) apart origin_here origin fresh_valid
          (omega (arith, enough))
      where
        apart : Disjoint T (labelled fresh label)
        apart r i = ground (arith, unused)

    -- The heap behind an added node is, off the tree and the node, the heap before.
    far :
        (h : Nodes)
        → ((a : Ptr) → has a T ≡ false → h a ≡ new_heap a)
        → (a : Ptr) → has a T ≡ false
        → a ≢ fresh
        → h a ≡ w.heap a
    far h same a out other = same a out ∙ rw (ne→not-== a fresh other) refl

    -- gpr_tree_new_child and gpr_tree_new_sibling return a new node with the label, cut to 128 bytes,
    -- and no value, behind the last child or the last sibling of the origin, and change no node outside
    -- of its tree. The heap holds the tree, which has no node twice and has the origin, `malloc` returns
    -- an address that the tree does not use, the length of the label is an `int`, and the fuel is more
    -- than the nodes.
    pub tree_new-Linked :
        Linked fresh w T
          (at_node o (with_child (labelled fresh label)) T)
          (gpr_tree_new_child debug fuel fresh o (some label) w)
        × Linked fresh w T
            (at_node o (with_sibling (labelled fresh label)) T)
            (gpr_tree_new_sibling debug fuel fresh o (some label) w)
    unfolding gpr_tree_new_child gpr_tree_new_sibling
    tree_new-Linked =
        let ((h, ran, holds, dist, same), (h', ran', holds', dist', same')) = both-Added in
        (
          (
            h,
            rw (ne→not-== o null origin_here, and-false debug)
                (rw (new_node-eq, and_then)
                  (rw (ne→not-== fresh null fresh_valid) (rw (ran, and_then) refl))),
            holds,
            dist,
            far h same,
          ),
          (
            h',
            rw (ne→not-== o null origin_here, and-false debug)
                (rw (new_node-eq, and_then)
                  (rw (ne→not-== fresh null fresh_valid) (rw (ran', and_then) refl))),
            holds',
            dist',
            far h' same',
          ),
        )
