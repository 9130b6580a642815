-- ===== src/Tree/Ops.antt =====
-- The operations of src/gpr_tree.c that make nodes and link them.
use gpr.Base.{
  ℕ, zero, suc, ◌+◌, List, [], Option, none, some, Bool, true, false, ◌&&◌, ◌||◌, if◌then◌else◌,
  ◌==◌,
}
use gpr.Machine.{Ptr, null, out_of_fuel, Cmd, ◌>>=◌, ◌>>◌, pure, crash}
use gpr.Utils.{Expansion, text, gpr_utils_vscnprintf, gpr_utils_scnprintf}
use gpr.Err.{GprErr, ok, invalid_parameter, loop_detected, not_implemented, raise, success}
use gpr.Tree.{
  Nodes, tnode, load_node, put_node, gpr_tree_node_label_len, gpr_tree_node_value_len,
  gpr_tree_free_node, is_contained,
}

unfoldable pub gpr_tree_init_node : Bool → Ptr → Cmd Nodes (Unit {0})
gpr_tree_init_node debug p =
    if debug && (p == null)
    then pure tt
    else if p == null
    then crash
    else put_node p (some (tnode [] [] null null))

abbrev pub is_null : {A : Type 0} → Option A → Bool
is_null none = true
is_null (some a) = false

-- The format "%s" with a label.
abbrev pub set_label : Ptr → Option (List ℕ) → Cmd Nodes (Unit {0})
set_label p none = crash
set_label p (some t) = do
  n ← load_node p
  put_node p (
      some (record n {
        label = (gpr_utils_scnprintf n.label (gpr_tree_node_label_len + 1) (text t)).1;
      }))

-- A format with its arguments.
abbrev pub set_value : Ptr → Option Expansion → Cmd Nodes (Unit {0})
set_value p none = crash
set_value p (some e) = do
  n ← load_node p
  put_node p
      (some (record n { value = (gpr_utils_vscnprintf n.value (gpr_tree_node_value_len + 1) e).1 }))

unfoldable pub gpr_tree_new_node : Bool → Ptr → Option (List ℕ) → Cmd Nodes Ptr
unfolding gpr_tree_init_node
gpr_tree_new_node debug fresh label =
    if debug && is_null label
    then pure null
    else if fresh == null
    then pure null
    else do gpr_tree_init_node debug fresh; set_label fresh label; pure fresh

unfoldable pub gpr_tree_new_vnode : Bool → Ptr → Option (List ℕ) → Option Expansion → Cmd Nodes Ptr
gpr_tree_new_vnode debug fresh label value =
    if debug && (is_null label || is_null value) then pure null else do
      p ← gpr_tree_new_node debug fresh label
      if p == null then pure null else do set_value p value; pure p

-- `while (scout->sibling != NULL) scout = scout->sibling`, on fuel
unfoldable pub last_sibling : ℕ → Ptr → Cmd Nodes Ptr
last_sibling zero scout = λ _. out_of_fuel
last_sibling (suc fuel) scout = do
  n ← load_node scout
  if n.sibling == null then pure scout else last_sibling fuel n.sibling

abbrev pub set_sibling : Ptr → Ptr → Cmd Nodes (Unit {0})
set_sibling p q = do n ← load_node p; put_node p (some (record n { sibling = q }))

abbrev pub set_child : Ptr → Ptr → Cmd Nodes (Unit {0})
set_child p q = do n ← load_node p; put_node p (some (record n { child = q }))

unfoldable pub gpr_tree_add_child : Bool → ℕ → Ptr → Ptr → Cmd Nodes GprErr
gpr_tree_add_child debug fuel origin child =
    if debug && (origin == null)
    then raise invalid_parameter "Invalid origin node"
    else if debug && (child == null)
    then raise invalid_parameter "Invalid child node"
    else do
      loop ← is_contained debug fuel child origin
      if loop then raise loop_detected "Child node already contains origin node" else do
        o ← load_node origin
        if o.child == null
            then set_child origin child
            else do scout ← last_sibling fuel o.child; set_sibling scout child
        success

unfoldable pub gpr_tree_add_sibling : Bool → ℕ → Ptr → Ptr → Cmd Nodes GprErr
gpr_tree_add_sibling debug fuel origin sibling =
    if debug && (origin == null)
    then raise invalid_parameter "Invalid origin node"
    else if debug && (sibling == null)
    then raise invalid_parameter "Invalid sibling node"
    else do
      loop ← is_contained debug fuel sibling origin
      if loop then raise loop_detected "Sibling node already contains origin node" else do
        o ← load_node origin
        if o.sibling == null
            then set_sibling origin sibling
            else do scout ← last_sibling fuel o.sibling; set_sibling scout sibling
        success

-- A node that cannot be linked is freed.
abbrev pub keep_linked : Bool → Ptr → GprErr → Cmd Nodes Ptr
keep_linked debug p ok = pure p
keep_linked debug p _ = do gpr_tree_free_node debug p; pure null

unfoldable pub gpr_tree_new_child : Bool → ℕ → Ptr → Ptr → Option (List ℕ) → Cmd Nodes Ptr
gpr_tree_new_child debug fuel fresh origin label =
    if debug && ((origin == null) || is_null label) then pure null else do
      p ← gpr_tree_new_node debug fresh label
      if p == null
          then pure null
          else do e ← gpr_tree_add_child debug fuel origin p; keep_linked debug p e

unfoldable pub gpr_tree_new_vchild :
    Bool → ℕ → Ptr → Ptr → Option (List ℕ) → Option Expansion → Cmd Nodes Ptr
gpr_tree_new_vchild debug fuel fresh origin label value =
    if debug && ((origin == null) || (is_null label || is_null value)) then pure null else do
      p ← gpr_tree_new_child debug fuel fresh origin label
      if p == null then pure null else do set_value p value; pure p

unfoldable pub gpr_tree_new_sibling : Bool → ℕ → Ptr → Ptr → Option (List ℕ) → Cmd Nodes Ptr
gpr_tree_new_sibling debug fuel fresh origin label =
    if debug && ((origin == null) || is_null label) then pure null else do
      p ← gpr_tree_new_node debug fresh label
      if p == null
          then pure null
          else do e ← gpr_tree_add_sibling debug fuel origin p; keep_linked debug p e

unfoldable pub gpr_tree_new_vsibling :
    Bool → ℕ → Ptr → Ptr → Option (List ℕ) → Option Expansion → Cmd Nodes Ptr
gpr_tree_new_vsibling debug fuel fresh origin label value =
    if debug && ((origin == null) || (is_null label || is_null value)) then pure null else do
      p ← gpr_tree_new_sibling debug fuel fresh origin label
      if p == null then pure null else do set_value p value; pure p

unfoldable pub gpr_tree_set_node_value : Bool → Ptr → Option Expansion → Cmd Nodes GprErr
gpr_tree_set_node_value debug p value =
    if debug && (p == null)
    then raise invalid_parameter "Invalid node"
    else if debug && is_null value
    then raise invalid_parameter "Invalid value"
    else do set_value p value; success

unfoldable pub gpr_tree_convert_to_xml : Cmd Nodes GprErr
gpr_tree_convert_to_xml = raise not_implemented "Feature not currently available"
