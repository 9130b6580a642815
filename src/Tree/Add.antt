-- ===== src/Tree/Add.antt =====
-- gpr_tree_add_child and gpr_tree_add_sibling: the new tree, and the refusal of a loop.
use gpr.Base.{ℕ, ◌+◌, ◌<◌, ◌≡◌, ◌≢◌, refl, [], Bool, true, false, arith, ne→not-==, and-false}
use gpr.Machine.{Ptr, null, World, done, and_then, Run}
use gpr.Err.{GprErr, ok, loop_detected, codes}
use gpr.Err.Raise.{raise_short}
use gpr.Tree.{Nodes, write, is_contained}
use gpr.Tree.Ops.{gpr_tree_add_child, gpr_tree_add_sibling}
use gpr.Tree.Shape.{Tree, root, size, has, Holds, Distinct, Disjoint}
use gpr.Tree.Graft.{off_root}
use gpr.Tree.Attach.{at_node, with_child, with_sibling, Attached, attach}
use gpr.Tree.Place.{
  has-root_valid, loop_child_short, loop_sibling_short, child_at, sibling_at, contained,
}

-- What adding `t` to the tree `T` left: the tree `T'`, with nothing twice, and the rest of the memory.
abbrev pub Added : World Nodes → Tree → Tree → Run Nodes GprErr → Type 0
Added w T T' r =
    (h : Nodes) × (r ≡ done ok (record w { msg = []; heap = h }))
    × Holds h T'
    × Distinct T'
    × ((a : Ptr) → has a T ≡ false → h a ≡ w.heap a)

Attached-Added :
    (w : World Nodes) (T T' t : Tree) (r : Run Nodes GprErr)
    → Attached w.heap T T' t r w.calls
    → Added w T T' r
Attached-Added w T T' t r a = (
  write w.heap a.address a.cell,
  a.ran,
  a.held,
  a.distinct,
  λ b out. rw (ne→not-== b a.address (off_root b T a.address out a.inside)) refl,
)

module _ (debug : Bool) (fuel : ℕ) (o : Ptr) (w : World Nodes) (T t : Tree) (whole : Holds w.heap T)
    (held : Holds w.heap t) (distinct : Distinct T) (distinct' : Distinct t) (apart : Disjoint T t)
    (origin_here : o ≢ null) (origin : has o T ≡ true) (some_here : root t ≢ null)
    (enough : size T + size t < fuel) where
  -- Adding a tree to a node anywhere in another tree puts it behind the node's last child, or behind
  -- its last sibling, returns success, clears the message, and changes no node outside of the node's
  -- tree. The heap holds both trees, which have no node in common and none twice, the node is one of
  -- the first, the second has a node, and the fuel is more than all the nodes.
  pub tree_add-Added :
      Added w T (at_node o (with_child t) T) (gpr_tree_add_child debug fuel o (root t) w)
      × Added w T (at_node o (with_sibling t) T) (gpr_tree_add_sibling debug fuel o (root t) w)
  tree_add-Added =
      let room : size t < fuel = omega (arith, enough) in
      (
        Attached-Added w T _ t _ (
            attach w.heap t _ w.calls o (with_child t) T whole distinct apart origin
              (λ l v c s part u d a.
                child_at debug fuel o t w.msg w.calls w.heap origin_here some_here held room
                  (apart o origin) distinct' l v c s u d a (omega (arith, enough, part.0)))),
        Attached-Added w T _ t _ (
            attach w.heap t _ w.calls o (with_sibling t) T whole distinct apart origin
              (λ l v c s part u d a.
                sibling_at debug fuel o t w.msg w.calls w.heap origin_here some_here held room
                  (apart o origin) distinct' l v c s u d a (omega (arith, enough, part.0)))),
      )

-- Where the tree to add contains the origin, adding it reports the loop, and changes nothing but the
-- message. The heap holds the tree, and the fuel is more than its nodes.
pub tree_add_loop :
    (debug : Bool) (fuel : ℕ) (o : Ptr) (w : World Nodes) (t : Tree)
    → Holds w.heap t
    → o ≢ null
    → has o t ≡ true
    → size t < fuel
    → (gpr_tree_add_child debug fuel o (root t) w
        ≡ done loop_detected (record w { msg = codes "Child node already contains origin node" }))
      × (gpr_tree_add_sibling debug fuel o (root t) w
          ≡ done loop_detected
              (record w { msg = codes "Sibling node already contains origin node" }))
unfolding gpr_tree_add_child gpr_tree_add_sibling
tree_add_loop debug fuel o w t held origin_here loop enough = (
  rw (ne→not-== o null origin_here, ne→not-== (root t) null some_here, and-false debug)
      (rw (contains, and_then) (rw loop (raise_short loop_detected _ w loop_child_short))),
  rw (ne→not-== o null origin_here, ne→not-== (root t) null some_here, and-false debug)
      (rw (contains, and_then) (rw loop (raise_short loop_detected _ w loop_sibling_short))),
)
  where
    some_here : root t ≢ null
    some_here = has-root_valid o t w.heap held loop

    contains : is_contained debug fuel (root t) o w ≡ done (has o t) w
    contains = contained debug fuel o t w.msg w.calls w.heap origin_here some_here held enough
