-- ===== src/Tree/Graft.antt =====
-- Trees put behind the last sibling of a node: the loop that looks for it, and the new tree.
use gpr.Base.{
  ℕ, zero, suc, ◌<◌, ◌≡◌, ◌≢◌, ◌⊎◌, refl, List, some, Bool, true, false, ◌||◌, ◌==◌, arith,
  Bool-cases, inl, inr, eq→==, ne→not-==,
}
use gpr.Machine.{Ptr, null, done, and_then}
use gpr.Tree.{Tnode, Nodes, tnode, write}
use gpr.Tree.Ops.{last_sibling}
use gpr.Tree.Shape.{
  Tree, leaf, node, root, size, has, Holds, Distinct, Disjoint, Holds-write, tree_world, has-root,
}

-- `t` behind the last sibling.
abbrev pub graft : Tree → Tree → Tree
graft leaf t = t
graft (node p l v c s) t = node p l v c (graft s t)

-- What `T'` may hold when `t` was put into `T`.
abbrev pub Within : Tree → Tree → Tree → Type 0
Within T' T t = (r : Ptr) → has r T' ≡ true → (has r T ≡ true) ⊎ (has r t ≡ true)

pub not_has :
    (r : Ptr) (T' T t : Tree) → Within T' T t → has r T ≡ false → has r t ≡ false → has r T' ≡ false
not_has r T' T t within out out' = elim (Bool-cases (has r T')) [
  | inl i ↦ elim (within r i) [ inl j ↦ cc | inr j ↦ cc ]
  | inr e ↦ e
]

pub graft-Within : (c t : Tree) → Within (graft c t) c t
graft-Within leaf t r e = inr e
graft-Within (node p l v c s) t r e = ground (arith, graft-Within s t r)

pub graft-Distinct : (c t : Tree) → Distinct c → Distinct t → Disjoint c t → Distinct (graft c t)
graft-Distinct leaf t d dt apart = dt
graft-Distinct (node p l v c s) t d dt apart = (
  d.0,
  not_has p (graft s t) s t (graft-Within s t) d.1 (apart p (has-root p l v c s)),
  λ r i. not_has r (graft s t) s t (graft-Within s t) (d.2 r i) (apart r (ground (arith, i))),
  d.3,
  graft-Distinct s t d.4 dt (λ r i. apart r (ground (arith, i))),
)

-- An address in one of two disjoint trees is not in the other.
pub not_below : (c s : Tree) (r : Ptr) → Disjoint c s → has r s ≡ true → has r c ≡ false
not_below c s r apart i = elim (Bool-cases (has r c)) [ inl j ↦ cc (apart r j) | inr e ↦ e ]

pub off_root : (p : Ptr) (s : Tree) (r : Ptr) → has p s ≡ false → has r s ≡ true → p ≢ r
off_root p s r out i e = cc

-- The last sibling of a node: the loop finds it, and linking `t` behind it grafts `t`.
pub record Last (msg : List ℕ) (calls : List Ptr) (h : Nodes) (c t : Tree) : Type 0 where
  pub address : Ptr
  pub cell : Tnode
  pub valid : address ≢ null
  pub at : h address ≡ some cell
  pub inside : has address c ≡ true
  pub held : Holds (write h address (some (record cell { sibling = root t }))) (graft c t)
  pub found :
      (fuel : ℕ)
      → size c < fuel
      → last_sibling fuel (root c) (tree_world msg calls h) ≡ done address (tree_world msg calls h)

module _ (msg : List ℕ) (calls : List Ptr) (h : Nodes) (t : Tree) (held : Holds h t) where
  last_here :
      (p : Ptr) (l v : List ℕ) (c : Tree) (fuel : ℕ)
      → Holds h (node p l v c leaf)
      → size (node p l v c leaf) < fuel
      → last_sibling fuel p (tree_world msg calls h) ≡ done p (tree_world msg calls h)
  unfolding last_sibling
  last_here p l v c zero u enough = absurd (omega arith)
  last_here p l v c (suc fuel) u enough = rw (ne→not-== p null u.0) (rw (u.1, and_then) refl)

  last_behind :
      (p : Ptr) (l v : List ℕ) (c s : Tree) (a : Ptr) (fuel : ℕ)
      → Holds h (node p l v c s)
      → root s ≢ null
      → size (node p l v c s) < fuel
      → ((f : ℕ)
          → size s < f
          → last_sibling f (root s) (tree_world msg calls h) ≡ done a (tree_world msg calls h))
      → last_sibling fuel p (tree_world msg calls h) ≡ done a (tree_world msg calls h)
  unfolding last_sibling
  last_behind p l v c s a zero u more enough found = absurd (omega arith)
  last_behind p l v c s a (suc fuel) u more enough found =
      rw (ne→not-== p null u.0)
        (rw (u.1, and_then) (rw (ne→not-== (root s) null more) (found fuel (omega arith))))

  pub Last-of :
      (c : Tree) → root c ≢ null → Holds h c → Distinct c → Disjoint c t → Last msg calls h c t
  Last-of leaf some_here u d apart = absurd (some_here refl)
  Last-of (node p l v c leaf) some_here u d apart = record {
    address = p;
    cell = tnode l v (root c) null;
    valid = u.0;
    at = u.1;
    inside = has-root p l v c leaf;
    held = (
      u.0,
      rw (eq→== p p refl) refl,
      Holds-write h p _ c u.2 d.0,
      Holds-write h p _ t held (apart p (has-root p l v c leaf)),
    );
    found = λ fuel. last_here p l v c fuel u;
  }
  Last-of (node p l v c (node q m w cs ss)) some_here u d apart =
      let s : Tree = node q m w cs ss in
      let rest = Last-of (node q m w cs ss) u.3.0 u.3 d.4 (λ r i. apart r (ground (arith, i))) in
      let off_c : has rest.address c ≡ false = not_below c s rest.address d.2 rest.inside in
      record {
        address = rest.address;
        cell = rest.cell;
        valid = rest.valid;
        at = rest.at;
        inside = rw rest.inside (or_last (p == rest.address) (has rest.address c));
        held = (
          u.0,
          rw (ne→not-== p rest.address (off_root p s rest.address d.1 rest.inside)) u.1,
          Holds-write h rest.address _ c u.2 off_c,
          rest.held,
        );
        found = λ fuel enough. last_behind p l v c s rest.address fuel u u.3.0 enough rest.found;
      }
    where
      or_last : (a b : Bool) → (a || (b || true)) ≡ true
      or_last true b = refl
      or_last false true = refl
      or_last false false = refl
