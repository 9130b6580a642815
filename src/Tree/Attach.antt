-- ===== src/Tree/Attach.antt =====
-- Trees put at a node anywhere in a tree: gpr_tree_add_child and gpr_tree_add_sibling.
use gpr.Base.{
  ℕ, ◌≤◌, ◌≡◌, refl, List, [], Option, true, false, ◌==◌, if◌then◌else◌, arith, Bool-cases, inl,
  inr, ==→eq, ne→not-==,
}
use mathlib.Core.Path.{subst}
use gpr.Machine.{Ptr, done, Run}
use gpr.Err.{GprErr, ok}
use gpr.Tree.{Tnode, Nodes, write}
use gpr.Tree.Shape.{
  Tree, leaf, node, root, size, has, Holds, Distinct, Disjoint, Holds-write, tree_world, has-root,
}
use gpr.Tree.Graft.{graft, Within, not_has, not_below, off_root}

-- `g` done to the tree whose root is `o`.
abbrev pub at_node : Ptr → (Tree → Tree) → Tree → Tree
at_node o g leaf = leaf
at_node o g (node p l v c s) =
    let c' = at_node o g c in
    let s' = at_node o g s in if p == o then g (node p l v c s) else node p l v c' s'

abbrev pub with_child : Tree → Tree → Tree
with_child t leaf = leaf
with_child t (node p l v c s) = node p l v (graft c t) s

abbrev pub with_sibling : Tree → Tree → Tree
with_sibling t u = graft u t

at_node-off : (o : Ptr) (g : Tree → Tree) (T : Tree) → has o T ≡ false → at_node o g T ≡ T
at_node-off o g leaf out = refl
at_node-off o g (node p l v c s) out =
    rw (off, at_node-off o g c (ground (arith, out)), at_node-off o g s (ground (arith, out))) refl
  where
    off : (p == o) ≡ false
    off = ground (arith, out)

-- `U` is a part of `T`.
abbrev pub Part : Tree → Tree → Type 0
Part U T = (size U ≤ size T) × ((r : Ptr) → has r U ≡ true → has r T ≡ true)

pub Within-node :
    (p : Ptr) (l v : List ℕ) (c c' s s' t : Tree)
    → Within c' c t
    → Within s' s t
    → Within (node p l v c' s') (node p l v c s) t
Within-node p l v c c' s s' t wc ws r e = ground (arith, wc r, ws r)

pub Within-same : (s t : Tree) → Within s s t
Within-same s t r e = inl e

-- What was put in is not in what was apart from it.
pub Disjoint-Within :
    (c' c t s : Tree) → Within c' c t → Disjoint c s → Disjoint s t → Disjoint c' s
Disjoint-Within c' c t s within apart apart' r i = elim (within r i) [
  | inl j ↦ apart r j
  | inr j ↦ not_below s t r apart' j
]

Disjoint-sym : (c s : Tree) → Disjoint c s → Disjoint s c
Disjoint-sym c s apart r i = not_below c s r apart i

-- A write to one node of `T` turned `T` into `T'`, which holds `t` besides.
pub record Attached (h : Nodes) (T T' t : Tree) (r : Run Nodes GprErr) (calls : List Ptr)
    : Type 0 where
  pub address : Ptr
  pub cell : Option Tnode
  pub inside : has address T ≡ true
  pub held : Holds (write h address cell) T'
  pub distinct : Distinct T'
  pub same_root : root T' ≡ root T
  pub within : Within T' T t
  pub ran : r ≡ done ok (tree_world [] calls (write h address cell))

module _ (h : Nodes) (t : Tree) (r : Run Nodes GprErr) (calls : List Ptr) (o : Ptr)
    (g : Tree → Tree) where
  in_child :
      (p : Ptr) (l v : List ℕ) (c s : Tree)
      → Holds h (node p l v c s)
      → Distinct (node p l v c s)
      → Disjoint (node p l v c s) t
      → has o c ≡ true
      → Attached h c (at_node o g c) t r calls
      → Attached h (node p l v c s) (at_node o g (node p l v c s)) t r calls
  in_child p l v c s u d apart i a =
      rw (off, at_node-off o g s out)
        (record {
          address = a.address;
          cell = a.cell;
          inside = ground (arith, a.inside);
          held = (
            u.0,
            rw (ne→not-== p a.address (off_root p c a.address d.0 a.inside), a.same_root) u.1,
            a.held,
            Holds-write h a.address a.cell s u.3 (d.2 a.address a.inside),
          );
          distinct = (
            not_has p (at_node o g c) c t a.within d.0 (apart p (has-root p l v c s)),
            d.1,
            Disjoint-Within (at_node o g c) c t s a.within d.2 (λ q j. apart q (ground (arith, j))),
            a.distinct,
            d.4,
          );
          same_root = refl;
          within = Within-node p l v c (at_node o g c) s s t a.within (Within-same s t);
          ran = a.ran;
        })
    where
      out : has o s ≡ false
      out = d.2 o i

      off : (p == o) ≡ false
      off = ne→not-== p o (off_root p c o d.0 i)

  in_sibling :
      (p : Ptr) (l v : List ℕ) (c s : Tree)
      → Holds h (node p l v c s)
      → Distinct (node p l v c s)
      → Disjoint (node p l v c s) t
      → has o s ≡ true
      → Attached h s (at_node o g s) t r calls
      → Attached h (node p l v c s) (at_node o g (node p l v c s)) t r calls
  in_sibling p l v c s u d apart i a =
      rw (off, at_node-off o g c out)
        (record {
          address = a.address;
          cell = a.cell;
          inside = ground (arith, a.inside);
          held = (
            u.0,
            rw (ne→not-== p a.address (off_root p s a.address d.1 a.inside), a.same_root) u.1,
            Holds-write h a.address a.cell c u.2 (not_below c s a.address d.2 a.inside),
            a.held,
          );
          distinct = (
            d.0,
            not_has p (at_node o g s) s t a.within d.1 (apart p (has-root p l v c s)),
            Disjoint-sym (at_node o g s) c (
                Disjoint-Within (at_node o g s) s t c a.within (Disjoint-sym c s d.2)
                  (λ q j. apart q (ground (arith, j)))),
            d.3,
            a.distinct,
          );
          same_root = refl;
          within = Within-node p l v c c s (at_node o g s) t (Within-same c t) a.within;
          ran = a.ran;
        })
    where
      out : has o c ≡ false
      out = not_below c s o d.2 i

      off : (p == o) ≡ false
      off = ne→not-== p o (off_root p s o d.1 i)

  -- What is done at the node is done in the whole tree.
  pub attach :
      (T : Tree)
      → Holds h T
      → Distinct T
      → Disjoint T t
      → has o T ≡ true
      → ((l v : List ℕ) (c s : Tree)
          → Part (node o l v c s) T
          → Holds h (node o l v c s)
          → Distinct (node o l v c s)
          → Disjoint (node o l v c s) t
          → Attached h (node o l v c s) (g (node o l v c s)) t r calls)
      → Attached h T (at_node o g T) t r calls
  attach leaf u d apart i here = absurd (cc)
  attach (node p l v c s) u d apart i here = elim (Bool-cases (p == o)) [
    | inl e ↦
        subst
          (λ q.
            ((m w : List ℕ) (a b : Tree)
              → Part (node q m w a b) (node p l v c s)
              → Holds h (node q m w a b)
              → Distinct (node q m w a b)
              → Disjoint (node q m w a b) t
              → Attached h (node q m w a b) (g (node q m w a b)) t r calls)
            → Attached h (node p l v c s) (at_node o g (node p l v c s)) t r calls)
          (==→eq p o e) (λ at_p. rw e (at_p l v c s (omega arith, λ q j. j) u d apart)) here
    | inr e ↦ elim (Bool-cases (has o c)) [
      | inl j ↦ in_child p l v c s u d apart j (
          attach c u.2 d.3 (λ q k. apart q (ground (arith, k))) j
            (λ m w a b part.
              here m w a b (omega (arith, part.0), λ q k. ground (arith, part.1 q k))))
      | inr j ↦
          let k : has o s ≡ true = ground (arith, i, e, j) in
          in_sibling p l v c s u d apart k (
            attach s u.3 d.4 (λ q m. apart q (ground (arith, m))) k
              (λ m w a b part.
                here m w a b (omega (arith, part.0), λ q n. ground (arith, part.1 q n))))
    ]
  ]
