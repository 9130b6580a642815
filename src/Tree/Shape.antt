-- ===== src/Tree/Shape.antt =====
-- The trees that a heap of nodes holds, and what they do not share.
use gpr.Base.{
  ℕ, suc, ◌+◌, ◌≡◌, ◌≢◌, refl, List, Option, none, some, Bool, true, false, ◌||◌, ◌==◌,
  if◌then◌else◌, arith, eq→==, ne→not-==,
}
use gpr.Machine.{Ptr, null, World}
use gpr.Tree.{Tnode, Nodes, tnode, write}

-- A node's address, label and value, its children and its siblings.
pub data Tree : Type 0 where
  leaf : Tree
  node : Ptr → List ℕ → List ℕ → Tree → Tree → Tree

abbrev pub root : Tree → Ptr
root leaf = null
root (node p l v c s) = p

abbrev pub size : Tree → ℕ
size leaf = 0
size (node p l v c s) = suc (size c + size s)

abbrev pub has : Ptr → Tree → Bool
has r leaf = false
has r (node p l v c s) = (p == r) || (has r c || has r s)

-- The heap holds the tree's nodes, linked as the tree says.
abbrev pub Holds : Nodes → Tree → Type 0
Holds h leaf = Unit
Holds h (node p l v c s) =
    (p ≢ null) × (h p ≡ some (tnode l v (root c) (root s))) × Holds h c × Holds h s

abbrev pub Disjoint : Tree → Tree → Type 0
Disjoint t u = (r : Ptr) → has r t ≡ true → has r u ≡ false

-- No address occurs twice.
abbrev pub Distinct : Tree → Type 0
Distinct leaf = Unit
Distinct (node p l v c s) =
    (has p c ≡ false) × (has p s ≡ false) × Disjoint c s × Distinct c × Distinct s

abbrev pub tree_world : List ℕ → List Ptr → Nodes → World Nodes
tree_world msg calls h = record { msg = msg; calls = calls; heap = h }

pub has-root : (p : Ptr) (l v : List ℕ) (c s : Tree) → has p (node p l v c s) ≡ true
has-root p l v c s = rw (eq→== p p refl) refl

-- A node off the tree may change.
pub Holds-write :
    (h : Nodes) (q : Ptr) (x : Option Tnode) (t : Tree)
    → Holds h t
    → has q t ≡ false
    → Holds (write h q x) t
Holds-write h q x leaf v out = tt
Holds-write h q x (node p l w c s) v out = (
  v.0,
  rw (ne→not-== p q apart) v.1,
  Holds-write h q x c v.2 (ground arith),
  Holds-write h q x s v.3 (ground arith),
)
  where
    apart : p ≢ q
    apart = ground arith

-- The heap without the tree's nodes.
abbrev pub erase : Tree → Nodes → Nodes
erase t h r = if has r t then none else h r

pub Holds-erase : (h : Nodes) (u t : Tree) → Holds h t → Disjoint t u → Holds (erase u h) t
Holds-erase h u leaf v apart = tt
Holds-erase h u (node p l w c s) v apart = (
  v.0,
  rw (apart p (has-root p l w c s)) v.1,
  Holds-erase h u c v.2 (λ r e. apart r (ground arith)),
  Holds-erase h u s v.3 (λ r e. apart r (ground arith)),
)

pub has-ne-leaf : (r : Ptr) (t : Tree) → has r t ≡ true → t ≢ leaf
has-ne-leaf r t h e = cc
