-- ===== src/Dlklist.antt =====
-- include/gpr_dlklist.h and src/gpr_dlklist.c: a doubly linked list of pointers.
-- The heap holds the one `struct gpr_dlklist` that the handle `list` points to, or nothing, and the
-- nodes at their addresses. `debug` says whether `DEBUG` is defined, `fresh` is what `malloc`
-- answers, and `data_free` says whether a callback is given (its calls are logged).
-- This file has the nodes and what reads them; Dlklist/Ops.antt has the operations.
mod Ops
mod Image
mod Link
mod Push
mod Position
mod Between
mod Inside
mod Visit
mod Runs
mod Tests
mod Refine
mod Take
mod Insert
mod Add
mod Contract
mod Clear
mod Unlink
use gpr.Base.{
  ℕ, zero, suc, ◌+◌, ◌-◌, ◌/◌, ◌%◌, ◌^◌, Option, none, some, Bool, true, false, ◌&&◌, ◌||◌, not,
  if◌then◌else◌, ◌==◌, leb, ltb,
}
use gpr.Machine.{
  attempt, call_back, when, Ptr, null, done, out_of_fuel, Cmd, ◌>>=◌, ◌>>◌, pure, crash, get_heap,
  put_heap,
}
use gpr.Err.{GprErr}

pub record DlNode : Type 0 where
  pub item : Ptr
  pub prev : Ptr
  pub next : Ptr

abbrev pub node : Ptr → Ptr → Ptr → DlNode
node item prev next = record { item = item; prev = prev; next = next }

pub record DlList : Type 0 where
  pub size : ℕ
  pub head : Ptr
  pub tail : Ptr

abbrev pub Nodes : Type 0
Nodes = Ptr → Option DlNode

pub record Dl : Type 0 where
  pub list : Option DlList
  pub nodes : Nodes

abbrev pub size_max : ℕ
size_max = 2 ^ 64

abbrev pub write : Nodes → Ptr → Option DlNode → Nodes
write h p c a = if a == p then c else h a

-- `*list`, and the write to it
abbrev pub load : Ptr → Cmd Dl DlList
load list = if list == null then crash else do h ← get_heap; attempt h.list

abbrev pub save : DlList → Cmd Dl (Unit {0})
save l w = done tt (record w { heap = record { list = some l; nodes = w.heap.nodes } })

-- `*p` of a node, a fault at `NULL` and at an address that holds no node
abbrev pub load_node : Ptr → Cmd Dl DlNode
load_node p = if p == null then crash else do h ← get_heap; attempt (h.nodes p)

abbrev pub put_node : Ptr → Option DlNode → Cmd Dl (Unit {0})
put_node p c w =
    done tt (record w { heap = record { list = w.heap.list; nodes = write w.heap.nodes p c } })

-- `p->prev = q` and `p->next = q`
unfoldable pub set_prev : Ptr → Ptr → Cmd Dl (Unit {0})
set_prev p q = do n ← load_node p; put_node p (some (record n { prev = q }))

unfoldable pub set_next : Ptr → Ptr → Cmd Dl (Unit {0})
set_next p q = do n ← load_node p; put_node p (some (record n { next = q }))

unfoldable pub gpr_dlklist_is_empty : Ptr → Cmd Dl Bool
gpr_dlklist_is_empty list =
    if list == null then pure true else do l ← load list; pure (l.head == null)

unfoldable pub gpr_dlklist_get_size : Ptr → Cmd Dl ℕ
gpr_dlklist_get_size list = if list == null then pure 0 else do l ← load list; pure l.size

unfoldable pub gpr_dlklist_get_head : Ptr → Cmd Dl Ptr
gpr_dlklist_get_head list = if list == null then pure null else do l ← load list; pure l.head

unfoldable pub gpr_dlklist_get_tail : Ptr → Cmd Dl Ptr
gpr_dlklist_get_tail list = if list == null then pure null else do l ← load list; pure l.tail

unfoldable pub gpr_dlklist_node_has_data : Ptr → Cmd Dl Bool
gpr_dlklist_node_has_data p =
    if p == null then pure false else do n ← load_node p; pure (not (n.item == null))

unfoldable pub gpr_dlklist_node_data : Ptr → Cmd Dl Ptr
gpr_dlklist_node_data p = if p == null then pure null else do n ← load_node p; pure n.item

unfoldable pub gpr_dlklist_node_prev : Ptr → Cmd Dl Ptr
gpr_dlklist_node_prev p = if p == null then pure null else do n ← load_node p; pure n.prev

unfoldable pub gpr_dlklist_node_next : Ptr → Cmd Dl Ptr
gpr_dlklist_node_next p = if p == null then pure null else do n ← load_node p; pure n.next

-- `fresh` is what `malloc` returns, an address that holds no node, or `NULL`.
unfoldable pub new_node : Bool → Ptr → Ptr → Cmd Dl Ptr
new_node debug fresh item =
    if debug && (item == null)
    then pure null
    else if fresh == null
    then pure null
    else put_node fresh (some (node item null null)) >> pure fresh

unfoldable pub free_node : Bool → Bool → Ptr → Cmd Dl (Unit {0})
free_node debug data_free p = if debug && (p == null) then pure tt else do
  n ← load_node p
  when (not (n.item == null) && data_free) (call_back n.item)
  put_node p none

-- The loops of `search_node_by_position`, on fuel.
unfoldable pub walk_next : ℕ → ℕ → ℕ → Ptr → Cmd Dl Ptr
walk_next zero counter pos scout = λ _. out_of_fuel
walk_next (suc fuel) counter pos scout =
    if counter == pos
    then pure scout
    else do next ← gpr_dlklist_node_next scout; walk_next fuel ((counter + 1) % size_max) pos next

unfoldable pub walk_prev : ℕ → ℕ → ℕ → Ptr → Cmd Dl Ptr
walk_prev zero counter pos scout = λ _. out_of_fuel
walk_prev (suc fuel) counter pos scout = if counter == pos then pure scout else do
  prev ← gpr_dlklist_node_prev scout
  walk_prev fuel ((counter + size_max - 1) % size_max) pos prev

unfoldable pub search_node_by_position : Bool → Ptr → ℕ → Cmd Dl Ptr
unfolding gpr_dlklist_get_size gpr_dlklist_get_head gpr_dlklist_get_tail
search_node_by_position debug list pos = do
  size ← gpr_dlklist_get_size list
  if debug && ((list == null) || leb size pos)
      then pure null
      else if ltb pos (size / 2)
      then (do head ← gpr_dlklist_get_head list; walk_next (size + 1) 0 pos head)
      else do
        tail ← gpr_dlklist_get_tail list
        walk_prev (size + 1) ((size + size_max - 1) % size_max) pos tail
