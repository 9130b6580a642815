-- ===== src/Tree/Place.antt =====
-- gpr_tree_add_child and gpr_tree_add_sibling at their origin: the search for a loop, and the new link.
use gpr.Base.{
  ℕ, ◌<◌, ◌≤◌, ◌≡◌, ◌≢◌, refl, sym, ◌∙◌, List, [], some, Bool, true, false, arith, inr, eq→==,
  ne→not-==, and-false, length,
}
use gpr.Machine.{Ptr, null, done, and_then, Run}
use gpr.Err.{GprErr, ok, gpr_err_raise, codes, gpr_err_msg_len}
use gpr.Tree.{Nodes, tnode, write, is_contained}
use gpr.Tree.Ops.{gpr_tree_add_child, gpr_tree_add_sibling}
use gpr.Tree.Shape.{
  Tree, leaf, node, root, size, has, Holds, Distinct, Disjoint, Holds-write, tree_world, has-root,
}
use gpr.Tree.Read.{contained_below-eq}
use gpr.Tree.Graft.{
  graft, graft-Within, graft-Distinct, not_has, not_below, off_root, Last, Last-of,
}
use gpr.Tree.Attach.{with_child, with_sibling, Attached, Within-node, Within-same, Disjoint-Within}

graft-root : (c t : Tree) → root c ≢ null → root (graft c t) ≡ root c
graft-root leaf t more = absurd (more refl)
graft-root (node p l v c s) t more = refl

pub has-root_valid : (o : Ptr) (t : Tree) (h : Nodes) → Holds h t → has o t ≡ true → root t ≢ null
has-root_valid o leaf h u i = cc
has-root_valid o (node p l v c s) h u i = u.0

pub loop_child_short : length (codes "Child node already contains origin node") ≤ gpr_err_msg_len
unfolding codes
loop_child_short = omega arith

pub loop_sibling_short :
    length (codes "Sibling node already contains origin node") ≤ gpr_err_msg_len
unfolding codes
loop_sibling_short = omega arith

module _ (debug : Bool) (fuel : ℕ) (o : Ptr) (t : Tree) (msg : List ℕ) (calls : List Ptr)
    (h : Nodes) (origin_here : o ≢ null) (some_here : root t ≢ null) (held : Holds h t)
    (enough : size t < fuel) where
  pub contained :
      is_contained debug fuel (root t) o (tree_world msg calls h)
      ≡ done (has o t) (tree_world msg calls h)
  contained =
      sym (rw (ne→not-== (root t) null some_here) refl)
      ∙ contained_below-eq debug o msg calls h t fuel origin_here held enough

  abbrev pub add_child_run : Run Nodes GprErr
  add_child_run = gpr_tree_add_child debug fuel o (root t) (tree_world msg calls h)

  abbrev pub add_sibling_run : Run Nodes GprErr
  add_sibling_run = gpr_tree_add_sibling debug fuel o (root t) (tree_world msg calls h)

  module _ (no_loop : has o t ≡ false) (l v : List ℕ) (s : Tree) where
    first_child :
        Holds h (node o l v leaf s)
        → add_child_run
          ≡ done ok (tree_world [] calls (write h o (some (tnode l v (root t) (root s)))))
    unfolding gpr_tree_add_child gpr_err_raise
    first_child u =
        rw (ne→not-== o null origin_here, ne→not-== (root t) null some_here, and-false debug)
          (rw (contained, and_then) (rw no_loop (rw (u.1, and_then) (rw (u.1, and_then) refl))))

    next_child :
        (c : Tree) (a : Last msg calls h c t)
        → root c ≢ null
        → Holds h (node o l v c s)
        → size c < fuel
        → add_child_run
          ≡ done ok
              (tree_world [] calls (write h a.address (some (record a.cell { sibling = root t }))))
    unfolding gpr_tree_add_child gpr_err_raise
    next_child c a more u room =
        rw (ne→not-== o null origin_here, ne→not-== (root t) null some_here, and-false debug)
          (rw (contained, and_then)
            (rw no_loop (
              rw (u.1, and_then)
                (rw (ne→not-== (root c) null more) (
                  rw (a.found fuel room, and_then)
                    (rw (ne→not-== a.address null a.valid) (rw (a.at, and_then) refl)))))))

    first_sibling :
        (c : Tree)
        → Holds h (node o l v c leaf)
        → add_sibling_run
          ≡ done ok (tree_world [] calls (write h o (some (tnode l v (root c) (root t)))))
    unfolding gpr_tree_add_sibling gpr_err_raise
    first_sibling c u =
        rw (ne→not-== o null origin_here, ne→not-== (root t) null some_here, and-false debug)
          (rw (contained, and_then) (rw no_loop (rw (u.1, and_then) (rw (u.1, and_then) refl))))

    next_sibling :
        (c : Tree) (a : Last msg calls h s t)
        → root s ≢ null
        → Holds h (node o l v c s)
        → size s < fuel
        → add_sibling_run
          ≡ done ok
              (tree_world [] calls (write h a.address (some (record a.cell { sibling = root t }))))
    unfolding gpr_tree_add_sibling gpr_err_raise
    next_sibling c a more u room =
        rw (ne→not-== o null origin_here, ne→not-== (root t) null some_here, and-false debug)
          (rw (contained, and_then)
            (rw no_loop (
              rw (u.1, and_then)
                (rw (ne→not-== (root s) null more) (
                  rw (a.found fuel room, and_then)
                    (rw (ne→not-== a.address null a.valid) (rw (a.at, and_then) refl)))))))

  -- At the origin itself.
  module _ (no_loop : has o t ≡ false) (distinct : Distinct t) where
    behind_child :
        (l v : List ℕ) (c s : Tree) (z : Last msg calls h c t)
        → root c ≢ null
        → Holds h (node o l v c s)
        → Distinct (node o l v c s)
        → Disjoint (node o l v c s) t
        → size c < fuel
        → Attached h (node o l v c s) (with_child t (node o l v c s)) t add_child_run calls
    behind_child l v c s z more u d apart room = record {
      address = z.address;
      cell = some (record z.cell { sibling = root t });
      inside = ground (arith, z.inside);
      held = (
        u.0,
        rw (ne→not-== o z.address (off_root o c z.address d.0 z.inside), graft-root c t more) u.1,
        z.held,
        Holds-write h z.address _ s u.3 (d.2 z.address z.inside),
      );
      distinct = (
        not_has o (graft c t) c t (graft-Within c t) d.0 no_loop,
        d.1,
        Disjoint-Within (graft c t) c t s (graft-Within c t) d.2
            (λ r i. apart r (ground (arith, i))),
        graft-Distinct c t d.3 distinct (λ r i. apart r (ground (arith, i))),
        d.4,
      );
      same_root = refl;
      within = Within-node o l v c (graft c t) s s t (graft-Within c t) (Within-same s t);
      ran = next_child no_loop l v s c z more u room;
    }

    pub child_at :
        (l v : List ℕ) (c s : Tree)
        → Holds h (node o l v c s)
        → Distinct (node o l v c s)
        → Disjoint (node o l v c s) t
        → size c < fuel
        → Attached h (node o l v c s) (with_child t (node o l v c s)) t add_child_run calls
    child_at l v leaf s u d apart room = record {
      address = o;
      cell = some (tnode l v (root t) (root s));
      inside = has-root o l v leaf s;
      held = (
        u.0,
        rw (eq→== o o refl) refl,
        Holds-write h o _ t held no_loop,
        Holds-write h o _ s u.3 d.1,
      );
      distinct = (
        no_loop,
        d.1,
        λ r i. not_below s t r (λ q j. apart q (ground (arith, j))) i,
        distinct,
        d.4,
      );
      same_root = refl;
      within = Within-node o l v leaf t s s t (λ r i. inr i) (Within-same s t);
      ran = first_child no_loop l v s u;
    }
    child_at l v (node p m w a b) s u d apart room =
        behind_child l v (node p m w a b) s
          (Last-of msg calls h t held (node p m w a b) u.2.0 u.2 d.3
            (λ r i. apart r (ground (arith, i))))
          u.2.0 u d apart room

    behind_sibling :
        (l v : List ℕ) (c s : Tree) (z : Last msg calls h s t)
        → root s ≢ null
        → Holds h (node o l v c s)
        → Distinct (node o l v c s)
        → Disjoint (node o l v c s) t
        → size s < fuel
        → Attached h (node o l v c s) (with_sibling t (node o l v c s)) t add_sibling_run calls
    behind_sibling l v c s z more u d apart room = record {
      address = z.address;
      cell = some (record z.cell { sibling = root t });
      inside = ground (arith, z.inside);
      held = (
        u.0,
        rw (ne→not-== o z.address (off_root o s z.address d.1 z.inside), graft-root s t more) u.1,
        Holds-write h z.address _ c u.2 (not_below c s z.address d.2 z.inside),
        z.held,
      );
      distinct = graft-Distinct (node o l v c s) t d distinct apart;
      same_root = refl;
      within = graft-Within (node o l v c s) t;
      ran = next_sibling no_loop l v s c z more u room;
    }

    pub sibling_at :
        (l v : List ℕ) (c s : Tree)
        → Holds h (node o l v c s)
        → Distinct (node o l v c s)
        → Disjoint (node o l v c s) t
        → size s < fuel
        → Attached h (node o l v c s) (with_sibling t (node o l v c s)) t add_sibling_run calls
    sibling_at l v c leaf u d apart room = record {
      address = o;
      cell = some (tnode l v (root c) (root t));
      inside = has-root o l v c leaf;
      held = (
        u.0,
        rw (eq→== o o refl) refl,
        Holds-write h o _ c u.2 d.0,
        Holds-write h o _ t held no_loop,
      );
      distinct = graft-Distinct (node o l v c leaf) t d distinct apart;
      same_root = refl;
      within = graft-Within (node o l v c leaf) t;
      ran = first_sibling no_loop l v leaf c u;
    }
    sibling_at l v c (node p m w a b) u d apart room =
        behind_sibling l v c (node p m w a b)
          (Last-of msg calls h t held (node p m w a b) u.3.0 u.3 d.4
            (λ r i. apart r (ground (arith, i))))
          u.3.0 u d apart room
