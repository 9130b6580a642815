-- ===== src/Tree.antt =====
-- include/gpr_tree.h and src/gpr_tree.c: trees of labelled nodes on a heap, each node with its first
-- child and its next sibling. The heap maps addresses to nodes. `debug` says whether `DEBUG` is
-- defined, and `fresh` is what `malloc` answers. The recursive functions and the loops follow links,
-- on fuel. This file has the nodes and what reads them; Tree/Ops.antt has what builds trees.
mod Ops
mod Shape
mod Read
mod Tests
mod New
mod Add
mod Attach
mod Place
mod Graft
mod Search
mod Free
use gpr.Base.{
  ℕ, zero, suc, ◌+◌, List, [], ◌∷◌, Option, none, some, Bool, true, false, ◌&&◌, ◌||◌, not,
  if◌then◌else◌, ◌==◌,
}
use gpr.Machine.{
  attempt, when, Ptr, null, done, out_of_fuel, Cmd, ◌>>=◌, ◌>>◌, pure, crash, get_heap,
}

abbrev pub gpr_tree_node_label_len : ℕ
gpr_tree_node_label_len = 128

abbrev pub gpr_tree_node_value_len : ℕ
gpr_tree_node_value_len = 256

-- The texts are the bytes before the `\0`.
pub record Tnode : Type 0 where
  pub label : List ℕ
  pub value : List ℕ
  pub child : Ptr
  pub sibling : Ptr

abbrev pub tnode : List ℕ → List ℕ → Ptr → Ptr → Tnode
tnode label value child sibling = record {
  label = label;
  value = value;
  child = child;
  sibling = sibling;
}

abbrev pub Nodes : Type 0
Nodes = Ptr → Option Tnode

abbrev pub write : Nodes → Ptr → Option Tnode → Nodes
write h p c a = if a == p then c else h a

-- `*p`, a fault at `NULL` and at an address that holds no node
abbrev pub load_node : Ptr → Cmd Nodes Tnode
load_node p = if p == null then crash else do h ← get_heap; attempt (h p)

abbrev pub put_node : Ptr → Option Tnode → Cmd Nodes (Unit {0})
put_node p c w = done tt (record w { heap = write w.heap p c })

unfoldable pub gpr_tree_free_node : Bool → Ptr → Cmd Nodes (Unit {0})
gpr_tree_free_node debug p =
    if debug && (p == null)
    then pure tt
    else if p == null
    then pure tt
    else do load_node p; put_node p none

unfoldable pub gpr_tree_free : Bool → ℕ → Ptr → Cmd Nodes (Unit {0})
gpr_tree_free debug zero origin = λ _. out_of_fuel
gpr_tree_free debug (suc fuel) origin = if debug && (origin == null) then pure tt else do
  a ← load_node origin
  if a.sibling == null then pure tt else gpr_tree_free debug fuel a.sibling
  b ← load_node origin
  if b.child == null then pure tt else gpr_tree_free debug fuel b.child
  gpr_tree_free_node debug origin

-- Whether the nodes under `node1`, and under its siblings, contain `node2`.
unfoldable pub is_contained : Bool → ℕ → Ptr → Ptr → Cmd Nodes Bool
is_contained debug zero node1 node2 = λ _. out_of_fuel
is_contained debug (suc fuel) node1 node2 =
    if debug && ((node1 == null) || (node2 == null))
    then pure false
    else if node1 == node2
    then pure true
    else do
      a ← load_node node1
      below ← (if a.child == null then pure false else is_contained debug fuel a.child node2)
      if below then pure true else do
        b ← load_node node1
        if b.sibling == null then pure false else is_contained debug fuel b.sibling node2

pub data SearchByNode : Type 0 where
  label value unknown : SearchByNode

abbrev pub is_unknown : SearchByNode → Bool
is_unknown unknown = true
is_unknown _ = false

-- `strncmp(a, b, n) == 0` of two texts
abbrev pub same_text : ℕ → List ℕ → List ℕ → Bool
same_text zero a b = true
same_text (suc n) [] [] = true
same_text (suc n) (x ∷ xs) (y ∷ ys) = let rest = same_text n xs ys in if x == y then rest else false
same_text (suc n) _ _ = false

-- What a pattern compares, and how many bytes of it.
abbrev pub limit : SearchByNode → ℕ
limit label = gpr_tree_node_label_len + 1
limit _ = gpr_tree_node_value_len + 1

abbrev pub component : SearchByNode → List ℕ → List ℕ → List ℕ
component label l v = l
component _ l v = v

-- The text to match may be `NULL`, and a comparison reads through it.
unfoldable pub search_by_node_component :
    Bool → ℕ → SearchByNode → Ptr → Option (List ℕ) → Cmd Nodes Ptr
search_by_node_component debug zero pattern origin match = λ _. out_of_fuel
search_by_node_component debug (suc fuel) pattern origin none =
    if debug || is_unknown pattern then pure null else crash
search_by_node_component debug (suc fuel) pattern origin (some match) =
    if debug && ((origin == null) || is_unknown pattern)
    then pure null
    else if is_unknown pattern
    then pure null
    else do
      a ← load_node origin
      if same_text (limit pattern) (component pattern a.label a.value) match
          then pure origin
          else do
            below ←
                (if a.child == null
                  then pure null
                  else search_by_node_component debug fuel pattern a.child (some match))
            if not (below == null) then pure below else do
              b ← load_node origin
              if b.sibling == null
                  then pure null
                  else search_by_node_component debug fuel pattern b.sibling (some match)

unfoldable pub gpr_tree_search_node_by_label : Bool → ℕ → Ptr → Option (List ℕ) → Cmd Nodes Ptr
gpr_tree_search_node_by_label debug fuel origin match =
    search_by_node_component debug fuel label origin match

unfoldable pub gpr_tree_search_node_by_value : Bool → ℕ → Ptr → Option (List ℕ) → Cmd Nodes Ptr
gpr_tree_search_node_by_value debug fuel origin match =
    search_by_node_component debug fuel value origin match
